-- ===== src/VectorStore.antt =====
-- `InMemoryVectorStore` (rag_core/clients/in_memory.py): one collection of points for each domain.
-- Python's floats are the parameter `fl`.
pub mod Query
pub mod Isolation
pub mod Keys
pub mod Hiding
pub mod Revocation
pub mod Changed
use domainrag_ops.Prelude.{
  ℕ, ◌+◌, String, Bool, true, false, Option, none, some, List, [], ◌∷◌, ◌==◌, string_eq, nat_eq,
  ltb, length, if◌then◌else◌, or_else, take, map, sort_by,
}
use domainrag_ops.Prelude.Float.{FloatOps}
use domainrag_ops.Prelude.Result.{Result, ok, err, ◌>>=◌}
use domainrag_ops.Dict.{Dict, get, set_item, pop, values}
use domainrag_ops.Payload.{Payload, Value}
use domainrag_ops.Acl.Filter.{Filter, payload_match}

-- What the methods raise: a missing collection, a collection that is there already, a comparison
-- of values of different types.
pub data Fault : Type 0 where
  key_error value_error type_error : Fault

pub record Point (fl : FloatOps) : Type 0 where
  pub id : String
  pub dense : List fl.Float
  pub sparse : Dict ℕ fl.Float
  pub payload : Payload

pub record Collection (fl : FloatOps) : Type 0 where
  pub dense_dim : ℕ
  pub with_sparse : Bool
  pub points : Dict String (Point fl)

abbrev pub Store : FloatOps → Type 0
Store fl = Dict String (Collection fl)

pub record Hit (fl : FloatOps) : Type 0 where
  pub id : String
  pub score : fl.Float
  pub payload : Payload

module _ (fl : FloatOps) where
  open fl use {Float, of_ℕ, ratio, lt, is_zero, plus, times, over, sqrt}

  -- `sum(x * y for x, y in zip(a, b))`
  unfoldable pub dot_from : Float → List Float → List Float → Float
  dot_from acc (x ∷ xs) (y ∷ ys) = dot_from (plus acc (times x y)) xs ys
  dot_from acc _ _ = acc

  -- `math.sqrt(sum(x * x for x in a)) or 1.0`
  norm : List Float → Float
  unfolding dot_from
  norm a = let n = sqrt (dot_from (of_ℕ 0) a a) in if is_zero n then of_ℕ 1 else n

  -- `_cosine`
  unfoldable pub cosine : List Float → List Float → Float
  unfolding dot_from norm
  cosine [] b = of_ℕ 0
  cosine (x ∷ xs) [] = of_ℕ 0
  cosine (x ∷ xs) (y ∷ ys) =
      over (dot_from (of_ℕ 0) (x ∷ xs) (y ∷ ys)) (times (norm (x ∷ xs)) (norm (y ∷ ys)))

  sparse_sum : Float → Dict ℕ Float → Dict ℕ Float → Float
  sparse_sum acc [] b = acc
  sparse_sum acc ((k, v) ∷ a) b = sparse_sum (plus acc (times v (or_else (get b k) (of_ℕ 0)))) a b

  -- `_sparse_dot`: the shorter dict is walked.
  unfoldable pub sparse_dot : Dict ℕ Float → Dict ℕ Float → Float
  unfolding sparse_sum
  sparse_dot [] b = of_ℕ 0
  sparse_dot (x ∷ a) [] = of_ℕ 0
  sparse_dot (x ∷ a) (y ∷ b) =
      if ltb (length (y ∷ b)) (length (x ∷ a))
      then sparse_sum (of_ℕ 0) (y ∷ b) (x ∷ a)
      else sparse_sum (of_ℕ 0) (x ∷ a) (y ∷ b)

  unfoldable pub point_score : List Float → Dict ℕ Float → Point fl → Float
  point_score dense sparse p =
      over (plus (cosine dense p.dense) (sparse_dot sparse p.sparse)) (of_ℕ 2)

  -- The loop that fills `scored`.
  unfoldable pub score_all :
      List Float
      → Dict ℕ Float
      → Option Filter
      → List (Point fl)
      → Result Fault (List (Float × Point fl))
  score_all dense sparse acl [] = ok []
  score_all dense sparse acl (p ∷ ps) =
      let rest = score_all dense sparse acl ps in
      elim (payload_match p.payload acl) [
        | none ↦ err type_error
        | some true ↦ (do r ← rest; ok ((point_score dense sparse p, p) ∷ r))
        | some false ↦ rest
      ]

  abbrev pub higher : Float × Point fl → Float × Point fl → Bool
  higher y x = lt x.0 y.0

  abbrev pub to_hit : Float × Point fl → Hit fl
  to_hit (score, p) = record { id = p.id; score = score; payload = p.payload }

  -- `_coll`
  abbrev pub collection : Store fl → String → Result Fault (Collection fl)
  collection s domain_id = elim (get s domain_id) [ none ↦ err key_error | some c ↦ ok c ]

  unfoldable pub hybrid_query :
      String
      → List Float
      → Dict ℕ Float
      → Option Filter
      → ℕ
      → Store fl
      → Result Fault (List (Hit fl))
  hybrid_query domain_id dense sparse acl top_k s = do
    coll ← collection s domain_id
    scored ← score_all dense sparse acl (values coll.points)
    ok (map to_hit (take top_k (sort_by higher scored)))

  unfoldable pub create_collection : String → ℕ → Bool → Store fl → Result Fault (Store fl)
  create_collection domain_id dense_dim with_sparse s = elim (get s domain_id) [
    | some _ ↦ err value_error
    | none ↦ ok (
        set_item s domain_id
          (record { dense_dim = dense_dim; with_sparse = with_sparse; points = [] }))
  ]

  unfoldable pub put_points : List (Point fl) → Dict String (Point fl) → Dict String (Point fl)
  put_points [] d = d
  put_points (p ∷ ps) d = put_points ps (set_item d p.id p)

  unfoldable pub upsert_chunks : String → List (Point fl) → Store fl → Result Fault (Store fl)
  unfolding put_points
  upsert_chunks domain_id points s = do
    coll ← collection s domain_id
    ok (set_item s domain_id (record coll { points = put_points points coll.points }))

  -- `p.payload.update(payload)`
  unfoldable pub update_payload : Dict String Value → Payload → Payload
  update_payload [] p = p
  update_payload ((k, v) ∷ more) p = update_payload more (set_item p k v)

  abbrev pub update_point :
      String
      → Dict String Value
      → Dict String (Point fl)
      → Option (Point fl)
      → Dict String (Point fl)
  update_point cid update d none = d
  update_point cid update d (some p) =
      set_item d cid (record p { payload = update_payload update p.payload })

  unfoldable pub set_payloads :
      List String → Dict String Value → Dict String (Point fl) → Dict String (Point fl)
  set_payloads [] update d = d
  set_payloads (cid ∷ cids) update d =
      set_payloads cids update (update_point cid update d (get d cid))

  unfoldable pub set_payload :
      String → List String → Dict String Value → Store fl → Result Fault (Store fl)
  set_payload domain_id chunk_ids payload s = do
    coll ← collection s domain_id
    ok (set_item s domain_id (record coll { points = set_payloads chunk_ids payload coll.points }))

  unfoldable pub delete_collection : String → Store fl → Store fl
  delete_collection domain_id s = pop s domain_id

  unfoldable pub pop_points : List String → Dict String (Point fl) → Dict String (Point fl)
  pop_points [] d = d
  pop_points (cid ∷ cids) d = pop_points cids (pop d cid)

  unfoldable pub delete_points : String → List String → Store fl → Store fl
  unfolding pop_points
  delete_points domain_id chunk_ids s = elim (get s domain_id) [
    | none ↦ s
    | some coll ↦ set_item s domain_id (record coll { points = pop_points chunk_ids coll.points })
  ]

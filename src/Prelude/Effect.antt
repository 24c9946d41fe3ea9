-- ===== src/Prelude/Effect.antt =====
-- Code that changes a state and may raise: the value or the exception, with the state that is left.
-- An exception keeps the changes made before it.
use mathlib.Core.Path.{◌≡◌, refl, sym, subst}
use mathlib.Core.Bool.{Bool, true, false}
use domainrag_ops.Prelude.Tests.{if◌then◌else◌}
use domainrag_ops.Prelude.Result.{Result, ok, err}

abbrev pub Effect {ℓ κ μ} : Type ℓ → Type κ → Type μ → Type (ℓ ⊔ κ ⊔ μ)
Effect S E A = S → Result E A × S

module _ {ℓ κ} {S : Type ℓ} {E : Type κ} where
  abbrev then_do {μ ν} :
      {A : Type μ} {B : Type ν} → (A → Effect S E B) → Result E A × S → Result E B × S
  then_do f (ok a, s) = f a s
  then_do f (err e, s) = (err e, s)

  infixl 5 ◌>>=◌ ◌>>◌
  unfoldable pub ◌>>=◌ {μ ν} :
      {A : Type μ} {B : Type ν} → Effect S E A → (A → Effect S E B) → Effect S E B
  (m >>= f) s = then_do f (m s)

  unfoldable pub ◌>>◌ {μ ν} : {A : Type μ} {B : Type ν} → Effect S E A → Effect S E B → Effect S E B
  (m >> k) s = then_do (λ _. k) (m s)

  unfoldable pub pure {μ} : {A : Type μ} → A → Effect S E A
  pure a s = (ok a, s)

  unfoldable pub raise {μ} : {A : Type μ} → E → Effect S E A
  raise e s = (err e, s)

  -- The state as a whole.
  unfoldable pub read : Effect S E S
  read s = (ok s, s)

  -- A call that raises or returns, and leaves the state.
  unfoldable pub call {μ} : {A : Type μ} → Result E A → Effect S E A
  call r s = (r, s)

  unfoldable pub modify : (S → S) → Effect S E (Unit {0})
  modify f s = (ok tt, f s)

  abbrev AtEnd {μ ν} : {A : Type μ} → (A → S → Type ν) → (E → S → Type ν) → Result E A × S → Type ν
  AtEnd Q N (ok a, s) = Q a s
  AtEnd Q N (err e, s) = N e s

  -- How a run ended: `Q` of the value and the state, or `N` of the exception and the state.
  pub record Ends {μ ν} {A : Type μ} (Q : A → S → Type ν) (N : E → S → Type ν) (r : Result E A × S)
      : Type ν where
    pub ended : AtEnd Q N r

  bind_lem {μ ω} :
      {A : Type μ} {B : Type ω} (m : Effect S E A) (f : A → Effect S E B) (s : S)
      → then_do f (m s) ≡ (m >>= f) s
  unfolding ◌>>=◌
  bind_lem m f s = refl

  sequence_lem {μ ω} :
      {A : Type μ} {B : Type ω} (m : Effect S E A) (k : Effect S E B) (s : S)
      → then_do (λ _. k) (m s) ≡ (m >> k) s
  unfolding ◌>>◌
  sequence_lem m k s = refl

  pure_lem {μ} : {A : Type μ} (a : A) (s : S) → pure a s ≡ (ok a, s)
  unfolding pure
  pure_lem a s = refl

  raise_lem {μ} : {A : Type μ} (e : E) (s : S) → raise {A = A} e s ≡ (err e, s)
  unfolding raise
  raise_lem e s = refl

  read_lem : (s : S) → read s ≡ (ok s, s)
  unfolding read
  read_lem s = refl

  modify_lem : (f : S → S) (s : S) → modify f s ≡ (ok tt, f s)
  unfolding modify
  modify_lem f s = refl

  call_lem {μ} : {A : Type μ} (r : Result E A) (s : S) → call r s ≡ (r, s)
  unfolding call
  call_lem r s = refl

  module _ {ν} {N : E → S → Type ν} where
    Ends-then_do {μ ω} :
        {A : Type μ} {B : Type ω} {Q : A → S → Type ν} {R : B → S → Type ν} (f : A → Effect S E B)
        (r : Result E A × S)
        → Ends Q N r
        → ((a : A) (t : S) → Q a t → Ends R N (f a t))
        → Ends R N (then_do f r)
    Ends-then_do f (ok a, t) h k = k a t h.ended
    Ends-then_do f (err e, t) h k = record { ended = h.ended }

    pub Ends->>= {μ ω} :
        {A : Type μ} {B : Type ω} {Q : A → S → Type ν} {R : B → S → Type ν} (m : Effect S E A)
        (f : A → Effect S E B) (s : S)
        → Ends Q N (m s)
        → ((a : A) (t : S) → Q a t → Ends R N (f a t))
        → Ends R N ((m >>= f) s)
    Ends->>= {R = R} m f s h k = subst (Ends R N) (bind_lem m f s) (Ends-then_do f (m s) h k)

    pub Ends->> {μ ω} :
        {A : Type μ} {B : Type ω} {Q : A → S → Type ν} {R : B → S → Type ν} (m : Effect S E A)
        (k : Effect S E B) (s : S)
        → Ends Q N (m s)
        → ((a : A) (t : S) → Q a t → Ends R N (k t))
        → Ends R N ((m >> k) s)
    Ends->> {R = R} m k s h f =
        subst (Ends R N) (sequence_lem m k s) (Ends-then_do (λ _. k) (m s) h f)

    returned {μ} :
        {A : Type μ} {Q : A → S → Type ν} (a : A) (s : S) (r : Result E A × S)
        → r ≡ (ok a, s)
        → Q a s
        → Ends Q N r
    returned {Q = Q} a s r e q = subst (Ends Q N) (sym e) (record { ended = q })

    pub Ends-pure {μ} :
        {A : Type μ} {Q : A → S → Type ν} (a : A) (s : S) → Q a s → Ends Q N (pure a s)
    Ends-pure a s h = returned a s (pure a s) (pure_lem a s) h

    pub Ends-raise {μ} :
        {A : Type μ} {Q : A → S → Type ν} (e : E) (s : S) → N e s → Ends Q N (raise e s)
    Ends-raise {Q = Q} e s n = subst (Ends Q N) (sym (raise_lem e s)) (record { ended = n })

    pub Ends-read : {Q : S → S → Type ν} (s : S) → Q s s → Ends Q N (read s)
    Ends-read s h = returned s s (read s) (read_lem s) h

    pub Ends-modify :
        {Q : Unit {0} → S → Type ν} (f : S → S) (s : S) → Q tt (f s) → Ends Q N (modify f s)
    Ends-modify f s h = returned tt (f s) (modify f s) (modify_lem f s) h

    pub Ends-call {μ} :
        {A : Type μ} {Q : A → S → Type ν} (r : Result E A) (s : S)
        → ((a : A) → r ≡ ok a → Q a s)
        → ((e : E) → r ≡ err e → N e s)
        → Ends Q N (call r s)
    Ends-call (ok a) s h k = returned a s (call (ok a) s) (call_lem (ok a) s) (h a refl)
    Ends-call {Q = Q} (err e) s h k =
        subst (Ends Q N) (sym (call_lem (err e) s)) (record { ended = k e refl })

    pub Ends-if {μ} :
        {A : Type μ} {Q : A → S → Type ν} (b : Bool) (m k : Effect S E A) (s : S)
        → Ends Q N (m s)
        → Ends Q N (k s)
        → Ends Q N ((if b then m else k) s)
    Ends-if true m k s h h' = h
    Ends-if false m k s h h' = h'

    pub Ends-map {μ} :
        {A : Type μ} {Q R : A → S → Type ν} (r : Result E A × S)
        → ((a : A) (t : S) → Q a t → R a t)
        → Ends Q N r
        → Ends R N r
    Ends-map (ok a, t) k h = record { ended = k a t h.ended }
    Ends-map (err e, t) k h = record { ended = h.ended }

  pub Ends-state {μ ν} :
      {A : Type μ} (P : S → Type ν) (r : Result E A × S) → Ends (λ _ t. P t) (λ _ t. P t) r → P r.1
  Ends-state P (ok a, t) h = h.ended
  Ends-state P (err e, t) h = h.ended

  pub Ends-ok {μ ν} :
      {A : Type μ} {Q : A → S → Type ν} {N : E → S → Type ν} (r : Result E A × S) (a : A) (t : S)
      → Ends Q N r
      → r ≡ (ok a, t)
      → Q a t
  Ends-ok {Q = Q} {N = N} r a t h e = let h' : Ends Q N (ok a, t) = subst (Ends Q N) e h in h'.ended

-- ===== src/Workflow/Searching.antt =====
-- The nodes of the workflow that lead to the retrieval (rag_core/workflows/nodes.py): the tenant's
-- configuration, the filter of the user, the class of the question, the routing, the rewriting, and the
-- call of the retrieval.
use Prim.Native.String.{◌++◌ as concat}
use domainrag_ops.Prelude.{
  String, Bool, true, false, ◌==◌, string_eq, Option, none, some, [], or_else, if◌then◌else◌,
}
use domainrag_ops.Prelude.Float.{FloatOps}
use domainrag_ops.Prelude.Result.{Result, ok, err}
use domainrag_ops.Acl.Builder.{Principal, build_qdrant_acl_filter}
use domainrag_ops.Acl.Filter.{Filter}
use domainrag_ops.Retrieval.{RetrievalConfig, RetrievalResult}
use domainrag_ops.Routing.{Classification, RoutingDecision, decide}
use domainrag_ops.VectorStore.{Fault}
use domainrag_ops.Workflow.{RagState, UserContext, TenantConfig, Raised, retrieve_context_node}

-- The arguments that `build_acl_filter_node` takes from `state.user_context or {}`.
unfoldable pub principal_of : Option UserContext → Principal
principal_of none = record {
  user_id = "";
  clearance = "internal";
  department = none;
  domain_groups = [];
}
principal_of (some user) = record {
  user_id = or_else user.user_id "";
  clearance = or_else user.clearance "internal";
  department = user.department;
  domain_groups = or_else user.domain_groups [];
}

module _ (fl : FloatOps) where
  -- `load_tenant_config_node`, with the loader of `deps`
  unfoldable pub load_tenant_config_node : (String → TenantConfig fl) → RagState fl → RagState fl
  load_tenant_config_node loader s = record s { tenant_config = loader s.domain_id }

  -- The filter of the state's user.
  abbrev pub acl_filter_for : Option String → Option UserContext → TenantConfig fl → Filter
  acl_filter_for today user config =
      build_qdrant_acl_filter (principal_of user) today (or_else config.exclude_archived true)

  -- `today` is `none` where `deps` has no `today_provider`.
  unfoldable pub build_acl_filter_node : Option String → RagState fl → RagState fl
  build_acl_filter_node today s = record s {
    acl_filter = some (acl_filter_for today s.user_context s.tenant_config);
  }

  abbrev with_class : Classification fl → RagState fl → RagState fl
  with_class c s = record s {
    query_type = some c.query_type;
    support_type = c.support_type;
    complexity = c.complexity;
  }

  -- `classify` is that of the classifier; `none` where there is no classifier.
  unfoldable pub classify_query_node :
      Option (String → Classification fl) → RagState fl → RagState fl
  classify_query_node none s =
      with_class
        (record {
          query_type = "document_qa";
          support_type = some "direct";
          complexity = some "medium";
        })
        s
  classify_query_node (some classify) s = with_class (classify s.question) s

  abbrev or_document_qa : Option String → String
  or_document_qa none = "document_qa"
  or_document_qa (some t) = if t == "" then "document_qa" else t

  -- `fallback_reason` where the decision has an action.
  abbrev routing_reason : Option String → Option String → Option String
  routing_reason none old = old
  routing_reason (some action) old = if action == "" then old else some (concat "routing_" action)

  abbrev routed : Option (RoutingDecision fl) → RagState fl → Option (RagState fl)
  routed none s = none
  routed (some d) s = some (record s {
    matched_rule = some d.matched_rule;
    selected_model = some d.model;
    selected_lora = d.lora_adapter;
    use_rag = d.use_rag;
    ui_mode = d.ui_mode;
    fallback_reason = routing_reason d.action s.fallback_reason;
  })

  -- The first argument says whether there is a router; `none` is its exception.
  unfoldable pub model_router_node : Bool → RagState fl → Option (RagState fl)
  model_router_node false s = some (record s {
    matched_rule = some "default_skipped";
    selected_model = some "tenant_slm";
    use_rag = true;
    ui_mode = "chat_structured";
  })
  model_router_node true s =
      routed
        (decide fl
          (record {
            query_type = or_document_qa s.query_type;
            support_type = s.support_type;
            complexity = s.complexity;
          })
          s.tenant_config.routing_rules s.tenant_config.routing_default s.tenant_config.model none)
        s

  -- `none` where there is no rewriter.
  unfoldable pub query_rewrite_node : Option (String → String) → RagState fl → RagState fl
  query_rewrite_node none s = s
  query_rewrite_node (some rewrite) s = record s { rewritten_query = rewrite s.question }

  -- `_retrieval_config_from_tenant`
  abbrev pub retrieval_config_from_tenant : TenantConfig fl → RetrievalConfig
  retrieval_config_from_tenant config = record {
    fused_top_k = or_else config.fused_k 50;
    rerank_top_k = or_else config.rerank_k 10;
    context_top_k = or_else config.context_k 5;
    reranker_bypass = or_else config.bypass false;
  }

  -- `state.rewritten_query or state.question`
  abbrev pub searched_text : RagState fl → String
  searched_text s = if s.rewritten_query == "" then s.question else s.rewritten_query

  -- The exceptions of the retrieval, by name and text.
  abbrev pub as_raised :
      (Fault → Raised) → Result Fault (RetrievalResult fl) → Result Raised (RetrievalResult fl)
  as_raised raised (ok r) = ok r
  as_raised raised (err e) = err (raised e)

  -- `retrieve_context_node` with the call of `retrieve`; the filter `{}` is as none to the store.
  unfoldable pub search_node :
      (Fault → Raised)
      → (String → String → Option Filter → RetrievalConfig → Result Fault (RetrievalResult fl))
      → RagState fl
      → RagState fl
  unfolding retrieve_context_node
  search_node raised retrieve s =
      retrieve_context_node fl
        (as_raised raised (
          retrieve s.domain_id (searched_text s) s.acl_filter
            (retrieval_config_from_tenant s.tenant_config)))
        s

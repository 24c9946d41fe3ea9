-- ===== src/Tests/Logged.antt =====
-- Two logged citations, one of them without an excerpt.
use domainrag_ops.Prelude.{String, ◌≡◌, refl, true, none, some, List, [], ◌∷◌, map}
use domainrag_ops.Reverifier.{LoggedCitation, ReverifyThresholds, ReverifyResult, reverify_one}
use domainrag_ops.Reverifier.Direct.{direct, reverify_one_lem}
use domainrag_ops.Tests.Floats.{thousandths}
use domainrag_ops.Prelude.{ℕ}

abbrev logged : LoggedCitation thousandths
logged = record {
  claim_text = some " hot ";
  excerpt = some "hot";
  similarity = some 600;
  support_level = some "medium";
  verified = some true;
  others = [];
}

abbrev citations : List (LoggedCitation thousandths)
citations = logged ∷ record logged { excerpt = none } ∷ []

abbrev thresholds : ReverifyThresholds thousandths
thresholds = record { strong = 750; medium = 550 }

abbrev embed : String → List ℕ
embed t = 1000 ∷ []

reverify_one_lem_example :
    (r : ReverifyResult thousandths) × (reverify_one thousandths
        (λ x. x)
        thresholds
        (λ ts. map embed ts)
        "r1"
        citations
      ≡ some r)
    × (r.citations_after ≡ map (direct thousandths (λ x. x) thresholds embed) citations)
reverify_one_lem_example =
    reverify_one_lem thousandths (λ x. x) thresholds embed (λ ts. map embed ts) (λ ts. refl) "r1"
      citations

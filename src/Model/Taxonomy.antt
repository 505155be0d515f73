-- ===== src/Model/Taxonomy.antt =====
-- Facets, their values, classifiers and editorial rules.
-- Code: models/facet.py, models/facet_value.py, models/classifier.py, models/editorial_rule.py.
use rd_news.Prelude.{ℕ, String, Bool, Option, List}
use rd_news.Prelude.Int.{ℤ}

pub data FacetKind : Type 0 where
  single multi : FacetKind

pub record Facet : Type 0 where
  pub slug : String
  pub kind : FacetKind
  pub required : Bool
  pub enabled : Bool
  pub position : ℕ

pub record FacetValue : Type 0 where
  pub facet_id : ℕ
  pub slug : String
  pub enabled : Bool
  pub position : ℕ

-- The two keys of `Classifier.config` that the pipeline reads are columns here.
pub record Classifier : Type 0 where
  pub slug : String
  pub allowed_axes : List String
  pub issuer : Option String
  pub node_id : Option String
  pub signing_public_key : Option String
  pub enabled : Bool
  pub shadow : Bool
  pub priority : ℕ
  pub min_confidence : ℕ

-- `set` or `add` of a rule
pub record Dimensions : Type 0 where
  pub urgency : Option ℤ
  pub impact : Option ℤ
  pub editorial_priority : Option ℤ

-- `EditorialRule.definition`: a definition that its validator accepts. A text in `when` is the list
-- of that one text, and `set` and `add` name no other dimension than the three.
pub record Definition : Type 0 where
  pub priority : ℤ
  pub conditions : List (String × List String)
  pub assignments : Dimensions
  pub additions : Dimensions
  pub stop : Bool

pub record EditorialRule : Type 0 where
  pub version : ℕ
  pub enabled : Bool
  pub definition : Definition

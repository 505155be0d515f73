-- ===== src/Model/Labels.antt =====
-- Opinions on the labels of a news item, the effective labels, and the manual decisions.
-- Code: models/news_label.py, models/news_effective_label.py, models/manual_label_decision.py.
use rd_news.Prelude.{ℕ, String, Option, List, Bool, true, false}

pub data Origin : Type 0 where
  classifier shadow parser source_default manual provenance : Origin

pub record NewsLabel : Type 0 where
  pub news_id : ℕ
  pub version_id : Option ℕ
  pub facet_id : ℕ
  pub value_id : ℕ
  pub origin : Origin
  pub origin_key : String
  pub confidence : ℕ
  pub reason : Option String
  pub evidence : List String

pub record NewsEffectiveLabel : Type 0 where
  pub news_id : ℕ
  pub facet_id : ℕ
  pub value_id : ℕ
  pub origin : Origin
  pub confidence : ℕ

pub data Action : Type 0 where
  set release : Action

pub record ManualLabelDecision : Type 0 where
  pub news_id : ℕ
  pub version_id : Option ℕ
  pub facet_id : ℕ
  pub revision : ℕ
  pub origin : Origin
  pub action : Action
  pub created_by_user_id : Option ℕ

abbrev pub is_manual : Origin → Bool
is_manual manual = true
is_manual _ = false

abbrev pub is_set : Action → Bool
is_set set = true
is_set release = false

-- `a.origin == b.origin`
abbrev pub same_origin : Origin → Origin → Bool
same_origin classifier classifier = true
same_origin shadow shadow = true
same_origin parser parser = true
same_origin source_default source_default = true
same_origin manual manual = true
same_origin provenance provenance = true
same_origin _ _ = false

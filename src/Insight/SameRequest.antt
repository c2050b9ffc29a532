-- ===== src/Insight/SameRequest.antt =====
-- internal/insight/factory/cached.go: the bytes that cacheKey hashes tell requests apart.
use yield_forge.Base.{some, ◌++◌, ◌∷◌, ◌≡◌, false, sym, ap, ◌∙◌}
use yield_forge.Base.Text.{Text, contains_char, before, before-append, after, after-append}
use yield_forge.Insight.Cache.{InsightRequest, Hashing, marshalled, hashed}

module _ {F : Type 0} (hashing : Hashing F) where
  -- No zero character stands in the user or the task, and the facts can be written as JSON.
  pub record IsHashable (req : InsightRequest F) : Type 0 where
    pub user_clean : contains_char 0 req.user_id ≡ false
    pub task_clean : contains_char 0 req.task ≡ false
    pub json : Text
    pub marshals : hashing.marshal req.facts ≡ some json

  -- One user, one task, and facts of one JSON.
  pub record IsSame (a b : InsightRequest F) : Type 0 where
    pub same_user : a.user_id ≡ b.user_id
    pub same_task : a.task ≡ b.task
    pub same_facts : hashing.marshal a.facts ≡ hashing.marshal b.facts

  pub hashed-IsSame :
      (a b : InsightRequest F)
      → IsHashable a
      → IsHashable b
      → hashed hashing a ≡ hashed hashing b
      → IsSame a b
  hashed-IsSame a b ha hb same =
      let after_user : (r : InsightRequest F) → Text =
        λ r. r.task ++ (0 ∷ marshalled (hashing.marshal r.facts)) in
      let rest : after_user a ≡ after_user b =
        sym (after-append 0 a.user_id (after_user a) ha.user_clean)
        ∙ ap (after 0) same
        ∙ after-append 0 b.user_id (after_user b) hb.user_clean in
      let text : (r : InsightRequest F) → Text = λ r. marshalled (hashing.marshal r.facts) in
      let texts : text a ≡ text b =
        sym (after-append 0 a.task (text a) ha.task_clean)
        ∙ ap (after 0) rest
        ∙ after-append 0 b.task (text b) hb.task_clean in
      let jsons : ha.json ≡ hb.json =
        sym (ap marshalled ha.marshals) ∙ texts ∙ ap marshalled hb.marshals in
      record {
        same_user =
            sym (before-append 0 a.user_id (after_user a) ha.user_clean).0
            ∙ ap (before 0) same
            ∙ (before-append 0 b.user_id (after_user b) hb.user_clean).0;
        same_task =
            sym (before-append 0 a.task (text a) ha.task_clean).0
            ∙ ap (before 0) rest
            ∙ (before-append 0 b.task (text b) hb.task_clean).0;
        same_facts = ha.marshals ∙ ap some jsons ∙ sym hb.marshals;
      }

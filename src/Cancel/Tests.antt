-- ===== src/Cancel/Tests.antt =====
-- Two sources, one of which is cancelled.
use async.Prelude.{◌≡◌, true, false, some, [], ◌∷◌}
use async.Cancel.{
  States, CancelSource, create, request, acts, new_source, token, is_cancelled, can_cancel,
  source_is_cancelled,
}
use async.Cancel.Sharing.{asked, token_observes_source}

abbrev one_flag : States
one_flag = false ∷ []

abbrev second : CancelSource
second = record { st = some 1 }

token_observes_source_example :
    let (s, m') = new_source one_flag in
    (is_cancelled (acts m' (create ∷ request second ∷ [])) (token s)
      ≡ asked 1 (create ∷ request second ∷ []))
    × (source_is_cancelled (acts m' (create ∷ request second ∷ [])) s
        ≡ asked 1 (create ∷ request second ∷ []))
    × (can_cancel (token s) ≡ true)
token_observes_source_example = token_observes_source one_flag (create ∷ request second ∷ [])

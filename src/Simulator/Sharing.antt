-- ===== src/Simulator/Sharing.antt =====
-- apps/web/components/simulator/SimulationResultsPanel.tsx: the share button and its timer.
use socio_technical_alignmen.Prelude.{
  ◌≡◌, refl, ◌∙◌, String, Bool, true, false, Option, none, some, [], ◌∷◌, if◌then◌else◌,
}
use socio_technical_alignmen.Html.Queries.{clicks}
use socio_technical_alignmen.Api.Client.{Outcome, Response}
use socio_technical_alignmen.Report.{ShareState, ShareEvent, share, share_url}
use socio_technical_alignmen.Simulator.Parts.{share_button}

-- Not waiting for an answer.
abbrev pub is_settled : ShareState → Bool
is_settled ShareState.loading = false
is_settled s = true

share_button_offers :
    (s : ShareState)
    → clicks (share_button s) ≡ (if is_settled s then ShareEvent.click ∷ [] else [])
unfolding clicks share_button
share_button_offers ShareState.idle = refl
share_button_offers ShareState.loading = refl
share_button_offers ShareState.copied = refl
share_button_offers ShareState.failed = refl

share-click :
    (app_url : String) (s : ShareState) → share app_url ShareEvent.click s ≡ ShareState.loading
unfolding share
share-click app_url ShareState.idle = refl
share-click app_url ShareState.loading = refl
share-click app_url ShareState.copied = refl
share-click app_url ShareState.failed = refl

-- The state after an answer, by the link and whether the clipboard took it.
abbrev after : Option String → Bool → ShareState
after u written = elim u [
  | none ↦ ShareState.failed
  | some url ↦ if written then ShareState.copied else ShareState.failed
]

after_settled : (u : Option String) (written : Bool) → is_settled (after u written) ≡ true
after_settled none written = refl
after_settled (some url) true = refl
after_settled (some url) false = refl

share-settles :
    (app_url : String) (res : Outcome (Response String)) (written : Bool) (s : ShareState)
    → is_settled (share app_url (ShareEvent.answered res written) s) ≡ true
unfolding share
share-settles app_url res written s = after_settled (share_url app_url res) written

-- While a request to share is running the button offers no click, and after its answer, whatever it
-- is, the button offers one. But the timer that an earlier answer set offers a click again while the
-- request still runs.
pub share_button_lem :
    (app_url : String) (res : Outcome (Response String)) (written : Bool) (s : ShareState)
    → let asked = share app_url ShareEvent.click s in
      (clicks (share_button asked) ≡ [])
      × (clicks (share_button (share app_url (ShareEvent.answered res written) asked))
          ≡ ShareEvent.click ∷ [])
      × (clicks (share_button (share app_url ShareEvent.timeout asked)) ≡ ShareEvent.click ∷ [])
unfolding share
share_button_lem app_url res written s =
    let asked = share app_url ShareEvent.click s in
    (
      rw (share-click app_url s) (share_button_offers ShareState.loading),
      share_button_offers (share app_url (ShareEvent.answered res written) asked)
          ∙ rw (share-settles app_url res written asked) refl,
      share_button_offers ShareState.idle,
    )

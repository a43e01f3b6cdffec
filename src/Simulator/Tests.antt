-- ===== src/Simulator/Tests.antt =====
-- The share button after a failure.
use socio_technical_alignmen.Prelude.{◌≡◌, true, [], ◌∷◌, String}
use socio_technical_alignmen.Api.Client.{Outcome, Response, rejected}
use socio_technical_alignmen.Html.Queries.{clicks}
use socio_technical_alignmen.Report.{ShareState, ShareEvent, share}
use socio_technical_alignmen.Simulator.Parts.{share_button}
use socio_technical_alignmen.Simulator.Sharing.{share_button_lem}

abbrev offline : Outcome (Response String)
offline = rejected "Failed to fetch"

share_button_lem_example :
    let asked = share "https://stas" ShareEvent.click ShareState.failed in
    (clicks (share_button asked) ≡ [])
    × (clicks (share_button (share "https://stas" (ShareEvent.answered offline true) asked))
        ≡ ShareEvent.click ∷ [])
    × (clicks (share_button (share "https://stas" ShareEvent.timeout asked))
        ≡ ShareEvent.click ∷ [])
share_button_lem_example = share_button_lem "https://stas" offline true ShareState.failed

-- ===== src/Admin/Tests.antt =====
-- The admin console at its start.
use socio_technical_alignmen.Prelude.{ℕ, ◌≡◌, true, false, none, List, [], ◌∷◌, String, arith}
use socio_technical_alignmen.Value.{Value}
use socio_technical_alignmen.Admin.{
  AdminState, Event, click, answered, refresh, failed, seed, step_all,
}
use socio_technical_alignmen.Admin.Log.{IsNumbered, step_all-IsNumbered}
use socio_technical_alignmen.Prelude.{refl, lookup}
use socio_technical_alignmen.Number.Scaled.{scaled}
use socio_technical_alignmen.Admin.{unreachable}
use socio_technical_alignmen.Html.Queries.{clicks}
use socio_technical_alignmen.Ui.{NavProps}
use socio_technical_alignmen.Admin.View.{admin_page}
use socio_technical_alignmen.Admin.Offers.{offered, admin_page_offers}
use socio_technical_alignmen.Admin.Reset.{Script, quick_reset}
use socio_technical_alignmen.Admin.ResetLaws.{IsReady, quick_reset-IsReady}

abbrev console : AdminState ℕ
console = record {
  stats = none;
  stats_loading = true;
  busy = [];
  log = [];
  confirm_target = none;
  log_id = 4;
}

abbrev print : Value ℕ → String
print v = "?"

abbrev session : List (Event ℕ)
session = click "10:00" seed ∷ answered "10:01" seed failed ∷ refresh ∷ []

step_all-IsNumbered_example : IsNumbered (step_all print print session console)
step_all-IsNumbered_example = step_all-IsNumbered print print session console (omega arith)

abbrev signed_out : NavProps
signed_out = record { pathname = "/admin"; has_valid_clerk_key = false }

admin_page_offers_example : clicks (admin_page {F = ℕ} signed_out "June" console) ≡ offered console
admin_page_offers_example = admin_page_offers signed_out "June" console

-- Every request fails.
abbrev offline : Script ℕ
offline = record { answer = λ op. failed; stats = λ op. unreachable }

quick_reset-IsReady_example :
    IsReady (quick_reset print "10:02" offline console)
    × ((quick_reset print "10:02" offline console).stats_loading ≡ false)
unfolding lookup
quick_reset-IsReady_example =
    quick_reset-IsReady print "10:02" offline console (refl, refl, refl) (omega arith)

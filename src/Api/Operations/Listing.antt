-- ===== src/Api/Operations/Listing.antt =====
-- The order of the apps that List of internal/api/handlers/operations.go answers with.
use dockhand.Prelude.{
  ℕ, ◌≡◌, refl, ◌∙◌, Option, List, [], ◌∷◌, Text, Map, text_eq, count_of, arith, IsRising, sort_by,
  sort_by-IsRising, count_of-sort_by,
}
use dockhand.Config.{App}
use dockhand.Operations.History.{Sql}
use dockhand.Operations.Runner.{Runner}
use dockhand.Api.{json}
use dockhand.Api.Operations.Apps.{AppSummary, app_summaries, list_apps}

count_of-app_summaries :
    (sql : Sql) (now : ℕ) (fault : Text → Option Text) (r : Runner) (n : Text) (found : Map App)
    → count_of (λ (a : AppSummary). text_eq a.name n) (app_summaries sql now fault r found)
      ≡ count_of (λ (p : Text × App). text_eq p.0 n) found
count_of-app_summaries sql now fault r n [] = refl
count_of-app_summaries sql now fault r n ((m, app) ∷ found) =
    ground (arith, count_of-app_summaries sql now fault r n found)

-- The listing of the apps answers with summaries in the order of their names, and with as many of each
-- name as there are apps of this name, whatever order the map of the apps is read in.
list_apps_sorted :
    (sql : Sql) (now : ℕ) (fault : Text → Option Text) (r : Runner)
    → (xs : List AppSummary) × (list_apps sql now fault r ≡ json xs)
      × IsRising (λ (a : AppSummary). a.name) xs
      × ((n : Text)
          → count_of (λ (a : AppSummary). text_eq a.name n) xs
            ≡ count_of (λ (p : Text × App). text_eq p.0 n) r.apps)
unfolding list_apps
list_apps_sorted sql now fault r =
    let found = app_summaries sql now fault r r.apps in
    (
      sort_by (λ (a : AppSummary). a.name) found,
      refl,
      sort_by-IsRising (λ (a : AppSummary). a.name) found,
      λ n.
          count_of-sort_by (λ (a : AppSummary). a.name) (λ (a : AppSummary). text_eq a.name n) found
          ∙ count_of-app_summaries sql now fault r n r.apps,
    )

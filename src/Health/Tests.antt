-- ===== src/Health/Tests.antt =====
-- Runs of the health checker, and its theorem at a concrete input.
use stile.Prelude.{◌≡◌, refl, true, false, none, [], ◌∷◌, arith, str_eq, eq_iff, inl, not}
use stile.Prelude.Dict
use stile.Health.{UpstreamInfo, Checker, Seen, new_checker, check, is_ready, update_upstreams}
use stile.Health.Verdicts.{DistinctNames, verdict, streak, health_in, fails_in, check-verdict}

abbrev web : UpstreamInfo
web = record { name = "web"; is_local = false }

abbrev shell : UpstreamInfo
shell = record { name = "shell"; is_local = true }

abbrev checker : Checker
checker = new_checker (λ name. true) (web ∷ shell ∷ [])

-- `web` does not answer
abbrev web_down : Seen
web_down = record { alive = λ name. not (str_eq name "web"); stored = λ name. none }

abbrev after_two : Checker
after_two = (check web_down (check web_down checker).0).0

abbrev after_three : Checker
after_three = (check web_down after_two).0

third_failure :
    (health_in after_two.beliefs "web" ≡ true)
    × (health_in after_three.beliefs "web" ≡ false)
    × (is_ready after_three ≡ true)
    × (is_ready (update_upstreams (λ name. false) (web ∷ []) after_three) ≡ false)
unfolding new_checker check is_ready update_upstreams Dict.get Dict.put Dict.empty Dict.remove
third_failure = (refl, refl, refl, refl)

names_distinct : DistinctNames (web ∷ shell ∷ [])
names_distinct = ((λ e. ground (arith, eq_iff "shell" "web"), tt), (tt, tt))

check-verdict_example :
    (health_in (check web_down checker).0.beliefs "web"
      ≡ verdict checker web_down web
          (health_in checker.beliefs "web")
          (fails_in checker.beliefs "web"))
    × (fails_in (check web_down checker).0.beliefs "web"
        ≡ streak checker web_down web (fails_in checker.beliefs "web"))
unfolding new_checker
check-verdict_example = check-verdict checker web_down web names_distinct (inl refl)

-- ===== src/RateLimit/Tests.antt =====
-- Five logins a quarter of an hour.
use legal_genie_agent.Prelude.{ℕ, ◌*◌, ◌≤◌, ◌≡◌, none, List, [], ◌∷◌, refl, All, arith}
use legal_genie_agent.Sql.{healthy}
use legal_genie_agent.Sql.Rows.{first_where}
use legal_genie_agent.RateLimit.{Clock, billion, secs, has_key}
use legal_genie_agent.RateLimit.Laws.{limit_exact, allowed, cutoff_of}

abbrev at : ℕ → Clock
at s = record { first = s * billion; second = s * billion; third = s * billion }

abbrev quarter : ℕ
quarter = 900 * billion

abbrev six : List Clock
six = at 1003 ∷ at 1010 ∷ at 1011 ∷ at 1500 ∷ at 1501 ∷ []

absent : first_where (has_key "login:ann") [] ≡ none
unfolding first_where
absent = refl

recent : All (λ u. cutoff_of quarter u ≤ secs (at 1000).second) six
unfolding secs
recent = (omega arith, (omega arith, (omega arith, (omega arith, (omega arith, tt)))))

limit_exact_example : allowed "login:ann" 5 quarter (at 1000 ∷ six) (healthy []) ≡ 5
limit_exact_example = limit_exact "login:ann" 5 quarter (at 1000) six [] absent recent

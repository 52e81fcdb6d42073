-- ===== src/Requests/Tests.antt =====
-- A request and its messages.
use strata_pvr.Base.{
  true, true-ne-false, ap, refl, ◌==◌, some, ◌≡◌, refl, ◌⊎◌, truthy, if◌then◌else◌,
}
use strata_pvr.Settings.{Format, null}
use strata_pvr.Requests.Realtime.{
  Ways, publish_mutation, refreshes, publish_mutation-refreshes, is_announced, ways_count,
}
use strata_pvr.Requests.Send.{Reply, answered, request, IsTold, IsSilent, request_lem}

abbrev both : Ways
both = record { has_channel = true; has_storage = true }

abbrev no_format : Format
no_format = record { parse = λ s. some null; stringify = λ v. "null" }

abbrev missing : Reply
missing = answered (record { status = 404; error_code = ""; body = "" })

refreshes_example :
    (refreshes "b" (publish_mutation both "a" "rules" "POST")
      ≡ (if is_announced "rules" "POST" then ways_count both else 0))
    × (refreshes "a" (publish_mutation both "a" "rules" "POST") ≡ 0)
refreshes_example =
    publish_mutation-refreshes both "a" "b" "rules" "POST"
      (λ e. true-ne-false (ap (λ s. s == "a") e))

-- The other window refreshes twice.
twice_test : (if is_announced "rules" "POST" then ways_count both else 0) ≡ 2
twice_test = refl

request_example :
    IsTold
      (publish_mutation both "a" "rules/7" (if truthy "PUT" then "PUT" else "GET"))
      (request no_format both "a" "rules/7" "PUT" missing)
    ⊎ IsSilent (request no_format both "a" "rules/7" "PUT" missing)
request_example = request_lem no_format both "a" "rules/7" "PUT" missing

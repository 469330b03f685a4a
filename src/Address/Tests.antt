-- ===== src/Address/Tests.antt =====
-- Runs of the functions on addresses.
use inter_claude_connector.Base.{◌≡◌, refl, none, some}
use inter_claude_connector.Address.{parse_address}

parse_address_tests :
    (parse_address "mars/a/b" ≡ record { host = some "mars"; instance_name = some "a/b" })
    × (parse_address "mars/" ≡ record { host = some "mars"; instance_name = none })
    × (parse_address "/a" ≡ record { host = some ""; instance_name = some "a" })
    × (parse_address "" ≡ record { host = none; instance_name = none })
unfolding parse_address
parse_address_tests = (refl, refl, refl, refl)

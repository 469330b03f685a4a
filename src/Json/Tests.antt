-- ===== src/Json/Tests.antt =====
-- Runs of the functions of Json on small objects.
use inter_claude_connector.Base.{String, ◌≡◌, refl, some, List, [], ◌∷◌, different}
use inter_claude_connector.Json.{
  Json, null, num, str, arr, obj, nil, cons, Fields, end, field, get_field, set_field, fields_of,
  merge_into, deep_merge, get_subtree, below, set_subtree,
}
use inter_claude_connector.Json.Canonical.{
  canonical_json, same, in_array, in_object, no_item, item, no_field, swap, next, both,
  canonical_json-Reordered,
}
use inter_claude_connector.Json.Paths.{IsOpen, Diverges, get_subtree-set_subtree}

abbrev print : Json → String
print null = "null"
print (num n) = n
print (str s) = s
print v = "?"

abbrev defaults : Fields
defaults =
    field "identity" (str "unnamed")
      (field "server" (obj (field "port" (num "3179") (field "host" (str "127.0.0.1") end))) end)

abbrev user_config : Fields
user_config =
    field "server" (obj (field "port" (num "4000") end)) (field "identity" (str "alpha") end)

deep_merge_check :
    deep_merge (λ n. "0") defaults user_config
    ≡ field "identity"
        (str "alpha")
        (field "server" (obj (field "port" (num "4000") (field "host" (str "127.0.0.1") end))) end)
unfolding deep_merge merge_into set_field get_field fields_of
deep_merge_check = refl

-- In an array, an object whose field "b" has an object with its fields in another order.
abbrev nested_one : Json
nested_one = arr (
    cons
      (obj (field "b" (obj (field "d" null (field "c" (str "x") end))) (field "a" (num "1") end)))
      nil)

abbrev nested_two : Json
nested_two = arr (
    cons
      (obj (field "a" (num "1") (field "b" (obj (field "c" (str "x") (field "d" null end))) end)))
      nil)

canonical_json-Reordered_example : canonical_json print nested_one ≡ canonical_json print nested_two
canonical_json-Reordered_example = canonical_json-Reordered print nested_one nested_two (
    in_array (
      item
        (in_object (
          both (next (in_object (swap (different "d" "c" refl))) (next (same (num "1")) no_field))
            (swap (different "b" "a" refl))))
        no_item))

abbrev server_port : Fields
server_port = set_subtree "server" ("port" ∷ []) (num "5000") defaults

server-IsOpen : IsOpen "server" ("port" ∷ []) defaults
unfolding get_field below
server-IsOpen = (field "port" (num "3179") (field "host" (str "127.0.0.1") end), refl, tt)

get_subtree-set_subtree_example :
    (get_subtree ("server" ∷ "port" ∷ []) (some (obj server_port)) ≡ some (num "5000"))
    × ((other : List String)
        → Diverges ("server" ∷ "port" ∷ []) other
        → get_subtree other (some (obj server_port)) ≡ get_subtree other (some (obj defaults)))
get_subtree-set_subtree_example =
    get_subtree-set_subtree "server" ("port" ∷ []) (num "5000") defaults server-IsOpen

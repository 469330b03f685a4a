-- ===== src/Json/Canonical.antt =====
-- `canonicalJson` of src/setup-config.ts. `print` is `JSON.stringify` on values that are no objects.
use Prim.Native.String
use inter_claude_connector.Base.{
  String, ◌≡◌, refl, ap, ◌∙◌, ◌≢◌, List, [], ◌∷◌, map, arith, if◌then◌else◌,
}
use inter_claude_connector.InboxDb.{text_lt}
use inter_claude_connector.Json.{
  Json, null, bool, num, str, arr, obj, Items, nil, cons, Fields, end, field,
}
use inter_claude_connector.TextOrder.{text_lt_asymm, text_lt_total, le-lt}

-- `keys.sort()`, by code points, which is the order of JavaScript for keys without characters outside
-- the basic plane, with the text of each key's value beside it.
unfoldable pub insert_key : String × String → List (String × String) → List (String × String)
insert_key e [] = e ∷ []
insert_key e (f ∷ fs) =
    let later = insert_key e fs in if text_lt f.0 e.0 then f ∷ later else e ∷ f ∷ fs

unfoldable pub sort_keys : List (String × String) → List (String × String)
unfolding insert_key
sort_keys [] = []
sort_keys (e ∷ es) = insert_key e (sort_keys es)

-- `texts.join(',')`
unfoldable pub join_commas : List String → String
join_commas [] = ""
join_commas (t ∷ []) = t
join_commas (t ∷ u ∷ ts) = String.◌++◌ t (String.◌++◌ "," (join_commas (u ∷ ts)))

module _ (print : Json → String) where
  abbrev pub entry_text : String × String → String
  entry_text e = String.◌++◌ (print (str e.0)) (String.◌++◌ ":" e.1)

  unfoldable mutual
    unfolding sort_keys join_commas

    pub canonical_json : Json → String
    canonical_json (arr vs) = String.◌++◌ "[" (String.◌++◌ (join_commas (canonical_items vs)) "]")
    canonical_json (obj fs) =
        String.◌++◌ "{"
          (String.◌++◌ (join_commas (map entry_text (sort_keys (canonical_fields fs)))) "}")
    canonical_json null = print null
    canonical_json (bool b) = print (bool b)
    canonical_json (num n) = print (num n)
    canonical_json (str s) = print (str s)

    pub canonical_items : Items → List String
    canonical_items nil = []
    canonical_items (cons v vs) = canonical_json v ∷ canonical_items vs

    pub canonical_fields : Fields → List (String × String)
    canonical_fields end = []
    canonical_fields (field k v fs) = (k, canonical_json v) ∷ canonical_fields fs

insert_key_comm :
    (d e : String × String) (es : List (String × String))
    → d.0 ≢ e.0
    → insert_key d (insert_key e es) ≡ insert_key e (insert_key d es)
unfolding insert_key
insert_key_comm d e [] n =
    ground (arith, text_lt_asymm d.0 e.0, text_lt_asymm e.0 d.0, text_lt_total d.0 e.0)
insert_key_comm d e (f ∷ fs) n = ground (
  arith,
  text_lt_asymm d.0 e.0,
  text_lt_asymm e.0 d.0,
  text_lt_total d.0 e.0,
  le-lt d.0 f.0 e.0,
  le-lt e.0 f.0 d.0,
  insert_key_comm d e fs n,
)

mutual
  -- The values differ in the order of the fields of objects, at any depth: in the value itself, in the
  -- items of its arrays and in the values of its fields. The items of an array stay in order.
  pub data Reordered : Json → Json → Type 0 where
    same : (v : Json) → Reordered v v
    in_array : {vs ws : Items} → ReorderedItems vs ws → Reordered (arr vs) (arr ws)
    in_object : {fs gs : Fields} → ReorderedFields fs gs → Reordered (obj fs) (obj gs)

  pub data ReorderedItems : Items → Items → Type 0 where
    no_item : ReorderedItems nil nil
    item :
        {v w : Json} {vs ws : Items}
        → Reordered v w
        → ReorderedItems vs ws
        → ReorderedItems (cons v vs) (cons w ws)

  pub data ReorderedFields : Fields → Fields → Type 0 where
    no_field : ReorderedFields end end
    swap :
        {j k : String} {v w : Json} {fs : Fields}
        → j ≢ k
        → ReorderedFields (field j v (field k w fs)) (field k w (field j v fs))
    next :
        {k : String} {v w : Json} {fs gs : Fields}
        → Reordered v w
        → ReorderedFields fs gs
        → ReorderedFields (field k v fs) (field k w gs)
    both :
        {fs gs hs : Fields} → ReorderedFields fs gs → ReorderedFields gs hs → ReorderedFields fs hs

module _ (print : Json → String) where
  mutual
    unfolding sort_keys canonical_json

    text-Reordered : {v w : Json} → Reordered v w → canonical_json print v ≡ canonical_json print w
    text-Reordered (same v) = refl
    text-Reordered (in_array r) =
        ap (λ ts. String.◌++◌ "[" (String.◌++◌ (join_commas ts) "]")) (items-ReorderedItems r)
    text-Reordered (in_object r) =
        ap (λ es. String.◌++◌ "{" (String.◌++◌ (join_commas (map (entry_text print) es)) "}"))
          (sorted-ReorderedFields r)

    items-ReorderedItems :
        {vs ws : Items} → ReorderedItems vs ws → canonical_items print vs ≡ canonical_items print ws
    items-ReorderedItems no_item = refl
    items-ReorderedItems (item r rs) = rw (text-Reordered r, items-ReorderedItems rs) refl

    sorted-ReorderedFields :
        {fs gs : Fields}
        → ReorderedFields fs gs
        → sort_keys (canonical_fields print fs) ≡ sort_keys (canonical_fields print gs)
    sorted-ReorderedFields no_field = refl
    sorted-ReorderedFields (swap {j} {k} {v} {w} {fs} n) =
        insert_key_comm (j, canonical_json print v) (k, canonical_json print w)
          (sort_keys (canonical_fields print fs)) n
    sorted-ReorderedFields (next r rs) = rw (text-Reordered r, sorted-ReorderedFields rs) refl
    sorted-ReorderedFields (both q r) = sorted-ReorderedFields q ∙ sorted-ReorderedFields r

  -- Values that differ in the order of the fields of objects only, at any depth, have the same
  -- canonical text.
  pub canonical_json-Reordered :
      (v w : Json) → Reordered v w → canonical_json print v ≡ canonical_json print w
  canonical_json-Reordered v w r = text-Reordered r

-- ===== src/Inbox/Groups.antt =====
-- How `updateSignalFile` sorts unread messages by instance.
use mathlib.Core.List.{append-nil, append_assoc}
use inter_claude_connector.Base.{
  String, ◌≡◌, refl, sym, ap, inl, inr, Bool, true, false, ◌||◌, Option, none, some, List, [], ◌∷◌,
  ◌++◌, arith, ◌==◌, eq_iff, if◌then◌else◌, Bool-cases, is_text, filter,
}
use inter_claude_connector.Dict.{Dict, get, has, Distinct}
use inter_claude_connector.Messages.{InboxMessage}
use inter_claude_connector.Inbox.Signals.{instance_of, group, add_to_group, by_instance}
use inter_claude_connector.Dict.Laws.{get-set, set-Distinct}

-- The unread messages to one instance.
abbrev pub addressed : String → List InboxMessage → List InboxMessage
addressed name ms = filter (λ m. is_text (instance_of m) name) ms

abbrev pub is_cons {ℓ} : {A : Type ℓ} → List A → Bool
is_cons [] = false
is_cons (_ ∷ _) = true

-- Each name once, and none of the lists empty.
abbrev pub IsGrouping : Dict (List InboxMessage) → Type 0
IsGrouping groups =
    Distinct groups
    × ((name : String) (ms : List InboxMessage) → get name groups ≡ some ms → is_cons ms ≡ true)

is_cons-concat {ℓ} : {A : Type ℓ} (xs : List A) (x : A) → is_cons (xs ++ x ∷ []) ≡ true
is_cons-concat [] x = refl
is_cons-concat (_ ∷ xs) x = refl

add-IsGrouping :
    (m : InboxMessage) (o : Option String) (groups : Dict (List InboxMessage))
    → IsGrouping groups
    → IsGrouping (add_to_group m o groups)
add-IsGrouping m none groups h = h
add-IsGrouping m (some name) groups (d, h) = (
  set-Distinct name _ groups d,
  λ k ms e. ground (
    arith,
    get-set name k (group name groups ++ m ∷ []) groups,
    h k ms,
    is_cons-concat (group name groups) m,
  ),
)

pub by_instance-IsGrouping :
    (ms : List InboxMessage) (groups : Dict (List InboxMessage))
    → IsGrouping groups
    → IsGrouping (by_instance ms groups)
unfolding by_instance
by_instance-IsGrouping [] groups h = h
by_instance-IsGrouping (m ∷ ms) groups h =
    by_instance-IsGrouping ms (add_to_group m (instance_of m) groups)
      (add-IsGrouping m (instance_of m) groups h)

group-add :
    (name : String) (m : InboxMessage) (o : Option String) (groups : Dict (List InboxMessage))
    → group name (add_to_group m o groups)
      ≡ group name groups ++ (if is_text o name then m ∷ [] else [])
group-add name m none groups = sym (append-nil _)
group-add name m (some k) groups = elim (Bool-cases (k == name)) [
  | inl same ↦
      let e : k ≡ name = (eq_iff k name).0 same in
      rw (get-set k name (group k groups ++ m ∷ []) groups, same) (rw e refl)
  | inr other ↦ rw (get-set k name (group k groups ++ m ∷ []) groups, other) (sym (append-nil _))
]

-- The list of an instance is what stood there, and then the unread messages to it.
pub group-by_instance :
    (name : String) (ms : List InboxMessage) (groups : Dict (List InboxMessage))
    → group name (by_instance ms groups) ≡ group name groups ++ addressed name ms
unfolding by_instance
group-by_instance name [] groups = sym (append-nil _)
group-by_instance name (m ∷ ms) groups =
    rw (group-by_instance name ms (add_to_group m (instance_of m) groups)) (
      rw (group-add name m (instance_of m) groups)
        (elim (Bool-cases (is_text (instance_of m) name)) [
          | inl same ↦ rw same (append_assoc (group name groups) (m ∷ []) (addressed name ms))
          | inr other ↦ rw other (ap (λ l. l ++ addressed name ms) (append-nil _))
        ]))

has-add :
    (name : String) (m : InboxMessage) (o : Option String) (groups : Dict (List InboxMessage))
    → has name (add_to_group m o groups) ≡ (has name groups || is_text o name)
has-add name m none groups = ground arith
has-add name m (some k) groups =
    ground (arith, get-set k name (group k groups ++ m ∷ []) groups, eq_iff k name)

-- An instance has a list exactly if it had one or a message is to it.
pub has-by_instance :
    (name : String) (ms : List InboxMessage) (groups : Dict (List InboxMessage))
    → has name (by_instance ms groups) ≡ (has name groups || is_cons (addressed name ms))
unfolding by_instance
has-by_instance name [] groups = ground arith
has-by_instance name (m ∷ ms) groups =
    rw (has-by_instance name ms (add_to_group m (instance_of m) groups))
      (rw (has-add name m (instance_of m) groups) (ground arith))

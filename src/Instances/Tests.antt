-- ===== src/Instances/Tests.antt =====
-- The laws of the instance names at two directories with one candidate, and a name that is cleaned.
use inter_claude_connector.Instances.Names.{IsName, sanitize-IsName}
use inter_claude_connector.Instances.Sanitize.{
  replace_chars, collapse, drop_dashes, drop_dashes_end, sanitize,
}
use inter_claude_connector.Base.{ℕ, String, ◌≡◌, refl, true, none, some, [], ◌∷◌}
use inter_claude_connector.Dict.{Dict, get, set, find, Distinct}
use inter_claude_connector.Inbox.Signals.{take_chars}
use inter_claude_connector.Instances.{is_taken, free_name, resolve}
use inter_claude_connector.Instances.Laws.{free_name-stuck}

abbrev print : ℕ → String
print n = "2"

abbrev index : Dict String
index = ("app", "/a/app") ∷ []

abbrev both : Dict String
both = ("app", "/a/app") ∷ ("app-2", "/b/app") ∷ []

resolves : resolve print 2 "app" "/b/app" index ≡ some ("app-2", both)
unfolding resolve find free_name take_chars get set
resolves = refl

index-Distinct : Distinct index
unfolding get
index-Distinct = (refl, tt)

-- A name of 32 characters.
abbrev long_name : String
long_name = "abcdefghijklmnopqrstuvwxyz012345"

long_taken : is_taken ((long_name, "/a") ∷ []) "/b" long_name ≡ true
unfolding get
long_taken = refl

free_name-stuck_example :
    free_name print 9 long_name "/b" ((long_name, "/a") ∷ []) long_name 2 ≡ none
free_name-stuck_example =
    free_name-stuck print 9 long_name "/b" ((long_name, "/a") ∷ []) 2 refl long_taken

sanitize-IsName_example : IsName (sanitize (λ s. s) "-my app-")
sanitize-IsName_example = sanitize-IsName (λ s. s) "-my app-"

sanitized : sanitize (λ s. s) "-my  app-" ≡ "my-app"
unfolding sanitize replace_chars collapse drop_dashes drop_dashes_end take_chars
sanitized = refl

-- ===== src/Cli/Single.antt =====
-- No two watchers of one instance in bin/icc.ts.
use inter_claude_connector.Base.{
  ℕ, String, ◌≡◌, refl, sym, ap, ◌∙◌, inl, inr, Bool, true, false, Option, some, eq_refl,
  Option-cases, truthy,
}
use inter_claude_connector.Dict.{get}
use inter_claude_connector.Dict.Laws.{get-set}
use inter_claude_connector.Strings.{trim}
use inter_claude_connector.Cli.{
  IccDir, Process, check_signal_files, write_heartbeat, write_watcher_pid, is_watcher_alive,
}
use inter_claude_connector.Cli.Watching.{
  LocalServer, already_active, waiting, mail, cleanup_watcher, look, start_polling, validate_token,
  register_watcher, watch_registered, watch_unless, run_watch,
}
use inter_claude_connector.Registry.Sessions.{is_active}

look-waiting : (name : String) (d d' : IccDir) → look name d ≡ (waiting, d') → d' ≡ d
unfolding look
look-waiting name d d' h = elim (Option-cases (truthy (check_signal_files name d))) [
  | inl e ↦
      let waits : look name d ≡ (waiting, d) = rw (look, e) refl in ap (λ x. x.1) (sym h ∙ waits)
  | inr (text, e) ↦
      let ends : look name d ≡ (mail text, cleanup_watcher name d) = rw (look, e) refl in
      absurd (cc (ap (λ x. x.0) (sym h ∙ ends)))
]

start_polling-waiting :
    (os : Process) (name : String) (d d' : IccDir)
    → start_polling os name d ≡ (waiting, d')
    → get name d'.watcher_pids ≡ some os.own_pid
unfolding start_polling write_watcher_pid write_heartbeat
start_polling-waiting os name d d' h = rw (look-waiting name _ d' h, get-set, eq_refl name) refl

watcher_found :
    (os : Process) (name pid : String) (n : ℕ) (d : IccDir)
    → get name d.watcher_pids ≡ some pid
    → os.parse_int (trim pid) ≡ some n
    → os.is_alive n ≡ true
    → is_watcher_alive os name d ≡ (true, d)
unfolding is_watcher_alive
watcher_found os name pid n d p i a = rw (is_watcher_alive, p, i, a) refl

module _ {W : Type 0} (server : LocalServer W) where
  watch_registered-waiting :
      (os : Process) (name : String) (is_deferred : Bool) (d d' : IccDir)
      → watch_registered server os name is_deferred d ≡ (waiting, d')
      → get name d'.watcher_pids ≡ some os.own_pid
  unfolding watch_registered
  watch_registered-waiting os name true d d' h = absurd (cc (ap (λ x. x.0) h))
  watch_registered-waiting os name false d d' h = start_polling-waiting os name d d' h

  watch_unless-waiting :
      (os : Process) (is_active force : Bool) (given_name : Option String) (name : String)
      (d d' : IccDir) (w w' : W)
      → watch_unless server os is_active force given_name name d w ≡ (waiting, (d', w'))
      → get name d'.watcher_pids ≡ some os.own_pid
  unfolding watch_unless
  watch_unless-waiting os true force given_name name d d' w w' h = absurd (cc (ap (λ x. x.0) h))
  watch_unless-waiting os false force given_name name d d' w w' h =
      let (d1, w1) = validate_token server os d w in
      let (is_deferred, (d2, w2)) = register_watcher server os force given_name name d1 w1 in
      watch_registered-waiting os name is_deferred d2 d' (ap (λ x. (x.0, x.1.0)) h)

  run_watch-waiting :
      (os : Process) (force : Bool) (given_name : Option String) (name : String) (d d' : IccDir)
      (w w' : W)
      → run_watch server os force given_name name d w ≡ (waiting, (d', w'))
      → get name d'.watcher_pids ≡ some os.own_pid
  unfolding run_watch
  run_watch-waiting os force given_name name d d' w w' h =
      let (is_active, d1) = is_watcher_alive os name d in
      watch_unless-waiting os is_active force given_name name d1 d' w w' h

  already :
      (os : Process) (force : Bool) (given_name : Option String) (name pid : String) (n : ℕ)
      (d : IccDir) (w : W)
      → get name d.watcher_pids ≡ some pid
      → os.parse_int (trim pid) ≡ some n
      → os.is_alive n ≡ true
      → run_watch server os force given_name name d w ≡ (already_active, (d, w))
  unfolding run_watch watch_unless
  already os force given_name name pid n d w p i a =
      rw (run_watch, watcher_found os name pid n d p i a) refl

  -- While a watcher of an instance waits, and the number of its process is read back from its text and
  -- that of a live process, another one of that instance ends at once: it leaves the files as they
  -- are and sends no request.
  pub run_watch-run_watch :
      (os os' : Process) (force force' : Bool) (given_name given_name' : Option String)
      (name : String) (n : ℕ) (d d' : IccDir) (w w' : W)
      → run_watch server os force given_name name d w ≡ (waiting, (d', w'))
      → os'.parse_int (trim os.own_pid) ≡ some n
      → os'.is_alive n ≡ true
      → run_watch server os' force' given_name' name d' w' ≡ (already_active, (d', w'))
  run_watch-run_watch os os' force force' given_name given_name' name n d d' w w' h i a =
      already os' force' given_name' name os.own_pid n d' w'
        (run_watch-waiting os force given_name name d d' w w' h) i a

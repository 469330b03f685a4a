-- ===== src/Manifest/Tests.antt =====
-- The laws of the managed files at small texts.
use inter_claude_connector.Base.{String, ◌≡◌, refl, false, none, some}
use inter_claude_connector.Server.Routes.{strip_prefix, contains}
use inter_claude_connector.Strings.{trim_start, trim_end, trim, split_lines, ends_with_newline}
use inter_claude_connector.Manifest.{
  extract_claude_md_region, with_newline, wrap_claude_md_with_markers,
}
use inter_claude_connector.Manifest.Migration.{split_heading, migrate_claude_md}
use inter_claude_connector.Manifest.Markers.{Clear}
use inter_claude_connector.Manifest.Syncing.{
  marked, migrate_claude_md-marked, migrate_claude_md_again,
}

abbrev notes : String
notes = "# Notes <b>\n"

abbrev rules : String
rules = "Read the inbox"

notes-Clear : Clear notes
unfolding contains strip_prefix ends_with_newline
notes-Clear = (refl, refl)

plain_notes : contains "<!--" notes ≡ false
unfolding contains strip_prefix
plain_notes = refl

plain_rules : contains "<!--" rules ≡ false
unfolding contains strip_prefix
plain_rules = refl

no_dollar : contains "$" (wrap_claude_md_with_markers rules) ≡ false
unfolding contains strip_prefix wrap_claude_md_with_markers with_newline ends_with_newline
no_dollar = refl

no_heading : split_heading (split_lines notes) ≡ none
unfolding split_heading split_lines trim_start trim_end
no_heading = refl

migrate_claude_md_again_example :
    let migrated = (migrate_claude_md notes rules).1 in
    (extract_claude_md_region migrated ≡ some (trim rules))
    × (migrate_claude_md migrated rules ≡ (false, migrated))
migrate_claude_md_again_example =
    migrate_claude_md_again notes rules plain_notes no_heading plain_rules no_dollar

migrate_claude_md-marked_example :
    migrate_claude_md (marked notes rules "# More") rules ≡ (false, marked notes rules "# More")
migrate_claude_md-marked_example =
    migrate_claude_md-marked notes rules "# More" rules notes-Clear plain_rules no_dollar

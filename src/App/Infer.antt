-- ===== src/App/Infer.antt =====
-- What the command palette infers from its input: `inferSearchResults` of
-- tui/internal/app/model.go, and tui/internal/searchinfer/infer.go. Whether `strkey.Decode` takes a
-- text as an account or as a contract is a parameter.
use stellarview_tui.Prelude.{
  ℕ, String, Bool, true, false, not, ◌&&◌, ◌||◌, Option, none, some, List, [], ◌∷◌, map, ltb, leb,
  str_eq, ◌-◌, ◌==◌, if◌then◌else◌,
}
use stellarview_tui.Prelude.Text.{
  trim_space, is_empty, to_lower, fields, cut, starts_with, all_chars, parse_decimal, byte_length,
  byte_slice, ◌+s◌,
}
use stellarview_tui.App.State.{SearchResult}
use stellarview_tui.App.Feed.{is_seen}

-- `Candidate`
pub record Candidate : Type 0 where
  pub kind : String
  pub title : String
  pub description : String
  pub command : String

abbrev is_hex : ℕ → Bool
is_hex c = leb b'0' c && leb c b'9' || leb b'a' c && leb c b'f' || leb b'A' c && leb c b'F'

-- `isHexString`
abbrev pub is_hex_string : String → Bool
is_hex_string value = all_chars is_hex value

-- `isTransactionHash`
unfoldable pub is_transaction_hash : String → Bool
is_transaction_hash value = (byte_length value == 64) && is_hex_string value

-- `isPartialTransactionHash`
unfoldable pub is_partial_transaction_hash : String → Bool
is_partial_transaction_hash value =
    leb 8 (byte_length value) && ltb (byte_length value) 64 && is_hex_string value

abbrev pub is_sequence : Option ℕ → Bool
is_sequence none = false
is_sequence (some n) = leb n 4294967295 && ltb 0 n

-- `isLedgerSequence`
unfoldable pub is_ledger_sequence : String → Bool
is_ledger_sequence value = is_sequence (parse_decimal value)

-- `truncateValue`
unfoldable pub truncate_value : String → String
truncate_value text =
    let value = trim_space text in
    if leb (byte_length value) 20
    then value
    else byte_slice value 0 10
      +s "..."
      +s byte_slice value (byte_length value - 6) (byte_length value)

-- `lookupCandidate`
abbrev pub lookup_candidate : String → String → String → String → Candidate
lookup_candidate kind title query command = record {
  kind = kind;
  title = title;
  description = truncate_value query;
  command = command;
}

-- `looksLikeExplicitCommand`
unfoldable pub looks_like_explicit_command : String → Bool
looks_like_explicit_command value = is_seen (cut 32 (to_lower (trim_space value))).0 (
    "home" ∷ "live" ∷ "feed" ∷ "lookup" ∷ "search" ∷ "settings" ∷ "config" ∷ "status" ∷ "back"
    ∷ "forward" ∷ "next" ∷ "help" ∷ "quit" ∷ "exit" ∷ "open" ∷ "bookmark" ∷ "note" ∷ "label"
    ∷ "view" ∷ "watch" ∷ [])

abbrev pub completion : String → String → String → SearchResult
completion title description command = record {
  kind = "command";
  title = title;
  description = description;
  command = command;
  enabled = true;
  source = "local";
}

second_starts : String → List String → Bool
second_starts prefix [] = false
second_starts prefix (first ∷ []) = false
second_starts prefix (first ∷ second ∷ rest) = starts_with second prefix

kept_completions : String → List SearchResult → List SearchResult
unfolding second_starts
kept_completions prefix [] = []
kept_completions prefix (c ∷ cs) =
    let rest = kept_completions prefix cs in
    if second_starts prefix (fields (trim_space c.command)) then c ∷ rest else rest

-- `filterSubcommandCompletions`
unfoldable pub filter_subcommand_completions : List SearchResult → String → List SearchResult
unfolding kept_completions
filter_subcommand_completions completions prefix =
    if is_empty prefix then completions else kept_completions prefix completions

abbrev bookmark_completions : List SearchResult
bookmark_completions =
    completion "bookmark add [title]" "bookmark current entity" "bookmark add "
    ∷ completion "bookmark remove" "remove bookmarks for current entity" "bookmark remove"
    ∷ completion "bookmark note <text>" "annotate bookmark for current entity" "bookmark note "
    ∷ []

abbrev note_completions : List SearchResult
note_completions =
    completion "note add [title] [| body]" "add a note for current entity" "note add "
    ∷ completion "note remove [filter]" "remove notes (optionally by title keyword)" "note remove"
    ∷ completion "note body [filter |] <text>" "update note body (optional title filter before |)"
        "note body "
    ∷ []

abbrev label_completions : List SearchResult
label_completions =
    completion "label add <name>" "apply a label to current entity" "label add "
    ∷ completion "label remove <name>" "detach a label from current entity" "label remove "
    ∷ completion "label delete <name>" "delete label definition entirely" "label delete "
    ∷ completion "label color <name> <color>" "set label color" "label color "
    ∷ []

abbrev open_completions : List SearchResult
open_completions =
    completion "open recent" "browse recently visited entities" "open recent"
    ∷ completion "open bookmarks" "browse saved bookmarks" "open bookmarks"
    ∷ completion "open notes" "browse saved notes" "open notes"
    ∷ completion "open labels" "browse labels and their entities" "open labels"
    ∷ completion "open views" "browse saved investigation views" "open views"
    ∷ completion "open cache" "reload cached payload for current entity" "open cache"
    ∷ []

abbrev view_completions : List SearchResult
view_completions =
    completion "view save <name>" "save current screen and filters" "view save "
    ∷ completion "view open <name>" "restore a saved view" "view open "
    ∷ completion "view delete <name>" "delete a saved view" "view delete "
    ∷ []

-- The completions of `inferWorkspaceCompletions` by their first word.
unfoldable pub completions_of : String → List SearchResult
completions_of word =
    if str_eq word "bookmark"
    then bookmark_completions
    else if str_eq word "note"
    then note_completions
    else if str_eq word "label"
    then label_completions
    else if str_eq word "open"
    then open_completions
    else if str_eq word "view"
    then view_completions
    else []

workspace_words : List String → List SearchResult
workspace_words [] = []
workspace_words (first ∷ []) = filter_subcommand_completions (completions_of first) ""
workspace_words (first ∷ second ∷ []) = filter_subcommand_completions (completions_of first) second
workspace_words (first ∷ second ∷ third ∷ rest) = []

-- `inferWorkspaceCompletions`
unfoldable pub infer_workspace_completions : String → List SearchResult
unfolding workspace_words
infer_workspace_completions query = workspace_words (fields (to_lower (trim_space query)))

local_result : Candidate → SearchResult
local_result candidate = record {
  kind = candidate.kind;
  title = candidate.title;
  description = candidate.description;
  command = candidate.command;
  enabled = true;
  source = "local";
}

module _ (is_account_address is_contract_address : String → Bool) where
  -- `isAssetQuery`
  unfoldable pub is_asset_query : String → Bool
  is_asset_query value =
      let (before, after, found) = cut b':' value in
      let asset = trim_space before in
      let issuer = trim_space after in
      found
      && not (is_empty asset)
      && leb (byte_length asset) 12
      && starts_with issuer "G"
      && is_account_address issuer

  -- `FromQuery`
  unfoldable pub from_query : String → List Candidate
  from_query text =
      let query = trim_space text in
      if is_empty query
      then []
      else if is_transaction_hash query
      then lookup_candidate "transaction" "Transaction" query ("lookup tx " +s query) ∷ []
      else if is_partial_transaction_hash query
      then lookup_candidate "transaction" "Transaction (partial)" query ("lookup tx " +s query) ∷ []
      else if is_account_address query
      then lookup_candidate "account" "Account" query ("lookup account " +s query) ∷ []
      else if is_contract_address query
      then lookup_candidate "contract" "Contract" query ("lookup contract " +s query) ∷ []
      else if is_ledger_sequence query
      then lookup_candidate "ledger" "Ledger" query ("lookup ledger " +s query) ∷ []
      else if is_asset_query query
      then lookup_candidate "asset" "Asset" query ("lookup asset " +s query) ∷ []
      else []

  -- `inferSearchResults`
  unfoldable pub infer_search_results : String → List SearchResult
  unfolding local_result
  infer_search_results input =
      let query = trim_space input in
      if is_empty query
      then []
      else if looks_like_explicit_command query
      then infer_workspace_completions query
      else map local_result (from_query query)

-- ===== src/Cache/Profiles.antt =====
-- Profiles and the state of the program: tui/internal/cache/profiles.go and state.go.
use stellarview_tui.Prelude.{ℕ, String, Bool, Option, none, some, List, [], ◌∷◌}
use stellarview_tui.Prelude.Text.{is_empty, str_lt}
use stellarview_tui.Prelude.Sort.{sort_stable}
use stellarview_tui.Cache.Rows.{Profile, StateEntry}
use stellarview_tui.Cache.Table.{get, upsert}
use stellarview_tui.Cache.Store.{
  Answer, given, refused, broken, no_rows, Method, refuse_if, query, execute, time_or,
}

abbrev pub profile_key : Profile → List String
profile_key profile = profile.id ∷ []

-- DO UPDATE SET
abbrev pub updated_profile : Profile → Profile → Profile
updated_profile old new = record old {
  name = new.name;
  network = new.network;
  rpc_url = new.rpc_url;
  indexer_url = new.indexer_url;
  updated_at = new.updated_at;
}

-- `UpsertProfile`
unfoldable pub upsert_profile : Option String → ℕ → Profile → Method (Unit {0})
upsert_profile problem now profile =
    refuse_if (is_empty profile.id) "cache: profile ID is required" (
      refuse_if (is_empty profile.name) "cache: profile name is required" (
        execute problem "cache: upsert profile %q: %w" (profile.id ∷ []) (λ tables. record tables {
          profiles =
              upsert profile_key updated_profile
                (record profile { created_at = time_or now profile.created_at; updated_at = now })
                tables.profiles;
        })))

-- ORDER BY name ASC
abbrev pub profile_before : Profile → Profile → Bool
profile_before a b = str_lt a.name b.name

-- `ListProfiles`
unfoldable pub list_profiles : Option String → Method (List Profile)
list_profiles problem =
    query problem "cache: list profiles: %w" []
      (λ tables. given (sort_stable profile_before tables.profiles))

abbrev pub state_key : StateEntry → List String
state_key entry = entry.key ∷ []

-- DO UPDATE SET
abbrev pub updated_entry : StateEntry → StateEntry → StateEntry
updated_entry old new = record old { value = new.value; updated_at = new.updated_at }

-- `SetStateJSON`, with what `json.Marshal` gives: an error or the text.
abbrev pub marshalled : String → Answer String → (String → Method (Unit {0})) → Method (Unit {0})
marshalled name (given payload) next tables = next payload tables
marshalled name (refused reason) next tables =
    (broken "cache: marshal state %q: %w" (name ∷ []) reason, tables)
marshalled name (broken format args e) next tables =
    (broken "cache: marshal state %q: %w" (name ∷ []) e, tables)
marshalled name (no_rows format args) next tables =
    (broken "cache: marshal state %q: %w" (name ∷ []) format, tables)

unfoldable pub set_state_json : Option String → ℕ → String → Answer String → Method (Unit {0})
set_state_json problem now name value = refuse_if (is_empty name) "cache: state key is required" (
    marshalled name value (λ payload.
      execute problem "cache: upsert state %q: %w" (name ∷ []) (λ tables. record tables {
        app_state =
            upsert state_key updated_entry
              (record { key = name; value = payload; updated_at = now }) tables.app_state;
      })))

module _ {A : Type 0} (decode : String → Option A) where
  unfoldable pub decoded : String → Option StateEntry → Answer A
  decoded name none = no_rows "cache: no rows returned for key %q" (name ∷ [])
  decoded name (some entry) = elim (decode entry.value) [
    | none ↦ broken "cache: decode state %q: %w" (name ∷ []) "json"
    | some value ↦ given value
  ]

  -- `GetStateJSON`, with what `json.Unmarshal` makes of the text, or `none` for its error.
  unfoldable pub get_state_json : Option String → String → Method A
  get_state_json problem name = refuse_if (is_empty name) "cache: state key is required" (
      query problem "cache: load state %q: %w" (name ∷ [])
        (λ tables. decoded name (get state_key (name ∷ []) tables.app_state)))

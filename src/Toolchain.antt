-- ===== src/Toolchain.antt =====
-- src/lib/toolchain.ts: the toolchain that a workspace asks for. The network, the parser of TOML,
-- paths, files and the digest are parameters; the lines of the log are left out.
pub mod Laws
pub mod Probe
pub mod ProbeLaws
mod Tests
use setup_soldr.Base.{Bool, false, not, ◌&&◌, ◌||◌, Option, none, some}
use setup_soldr.Base.{List, [], ◌∷◌, ◌++◌, map, if◌then◌else◌, Eq, ◌==◌}
use setup_soldr.Base.{nat_eq, list_eq, option_eq}
use setup_soldr.Base.{filter, find, get_or, Result, ok, err}
use setup_soldr.Base.{◌>>=◌, ◌>>◌}
use setup_soldr.Base.Text.{Text, text, trim, to_lower, strip_prefix}
use setup_soldr.Base.Text.{is_empty}
use setup_soldr.Base.Json.{Json, Items, prop}
use setup_soldr.Base.Span.{is_digit}
use setup_soldr.Base.Split.{split}

pub data RollingAlias : Type 0 where
  stable : RollingAlias
  beta : RollingAlias
  nightly : RollingAlias

abbrev pub alias_text : RollingAlias → Text
alias_text RollingAlias.stable = text "stable"
alias_text RollingAlias.beta = text "beta"
alias_text RollingAlias.nightly = text "nightly"

abbrev pub rolling_toolchain_aliases : List RollingAlias
rolling_toolchain_aliases = RollingAlias.stable ∷ RollingAlias.beta ∷ RollingAlias.nightly ∷ []

-- The character behind the dash is there, and no digit.
abbrev pub goes_on : Option Text → Bool
goes_on none = false
goes_on (some []) = false
goes_on (some (c ∷ s)) = not (is_digit c)

unfoldable pub matches_alias : Text → RollingAlias → Bool
unfolding text strip_prefix is_digit
matches_alias channel alias =
    channel == alias_text alias || goes_on (strip_prefix (alias_text alias ++ text "-") channel)

unfoldable pub rolling_toolchain_alias : Text → Option RollingAlias
unfolding matches_alias trim to_lower
rolling_toolchain_alias channel =
    find (matches_alias (to_lower (trim channel))) rolling_toolchain_aliases

pub record Response : Type 0 where
  pub ok_status : Bool
  pub body : Result Text

abbrev pub parsed : Result Json → Option Json
parsed (err message) = none
parsed (ok value) = some value

abbrev pub string_of : Option Json → Text
string_of (some (Json.str s)) = trim s
string_of _ = []

-- The first word of a version, or null if there is none.
abbrev pub first_part : List Text → Text → Text
first_part [] raw = raw
first_part (p ∷ parts) raw = p

abbrev pub first_word : Text → Option Text
first_word [] = none
first_word (c ∷ s) = some (first_part (split b' ' (c ∷ s)) (c ∷ s))

unfoldable pub extract_rust_pkg : Option Json → Option Json
unfolding prop text
extract_rust_pkg payload = prop (prop payload (text "pkg")) (text "rust")

abbrev pub manifest_url : RollingAlias → Text
manifest_url alias =
    text "https://static.rust-lang.org/dist/channel-rust-" ++ (alias_text alias ++ text ".toml")

module _ (fetch : Text → Result Response) (parse_toml : Text → Result Json) where
  abbrev pub release_of_body : Result Text → Option Text
  release_of_body (err message) = none
  release_of_body (ok body) =
      first_word (string_of (prop (extract_rust_pkg (parsed (parse_toml body))) (text "version")))

  abbrev pub release_of_response : Result Response → Option Text
  release_of_response (err message) = none
  release_of_response (ok response) =
      if response.ok_status then release_of_body response.body else none

  -- null for every failure on the way.
  unfoldable pub rust_channel_manifest_release : RollingAlias → Option Text
  unfolding extract_rust_pkg prop trim split text
  rust_channel_manifest_release alias = release_of_response (fetch (manifest_url alias))

  abbrev pub or_channel : Option RollingAlias → Text → Text
  or_channel none channel = channel
  or_channel (some alias) channel = get_or (rust_channel_manifest_release alias) channel

  unfoldable pub resolve_toolchain_cache_channel : Text → Text
  unfolding rolling_toolchain_alias rust_channel_manifest_release
  resolve_toolchain_cache_channel channel = or_channel (rolling_toolchain_alias channel) channel

abbrev pub not_empty : Text → Bool
not_empty s = not (is_empty s)

module _ (to_text : Json → Text) where
  unfoldable pub item_texts : Items → List Text
  unfolding trim
  item_texts Items.nil = []
  item_texts (Items.cons (Json.str s) items) = trim s ∷ item_texts items
  item_texts (Items.cons item items) = trim (to_text item) ∷ item_texts items

  unfoldable pub normalize_list : Option Json → List Text
  unfolding item_texts split trim
  normalize_list (some (Json.str [])) = []
  normalize_list (some (Json.str (c ∷ s))) = filter not_empty (map trim (split b',' (c ∷ s)))
  normalize_list (some (Json.arr items)) = filter not_empty (item_texts items)
  normalize_list _ = []

pub record ToolchainSpec : Type 0 where
  pub channel : Text
  pub cache_channel : Text
  pub profile : Text
  pub components : List Text
  pub targets : List Text
  pub source : Text
  pub file_hash : Text

-- What the load calls: paths, files, the digest of 16 digits, the parser, and `String` of a value
-- that is no string.
pub record Host : Type 0 where
  pub join_path : Text → Text → Text
  pub posix_relative : Text → Text → Text
  pub exists : Text → Bool
  pub read_file : Text → Text
  pub short_hash : Text → Text
  pub parse_toml : Text → Result Json
  pub to_text : Json → Text
  pub fetch : Text → Result Response

pub record Options : Type 0 where
  pub workspace : Text
  pub toolchain_file : Text
  pub toolchain_override : Text

-- The fields that are known before the channel is resolved.
pub record Draft : Type 0 where
  pub channel : Text
  pub profile : Text
  pub components : List Text
  pub targets : List Text
  pub source : Text
  pub file_hash : Text

abbrev pub string_or : Option Json → Text → Text
string_or (some (Json.str s)) d = s
string_or _ d = d

abbrev pub default_draft : Draft
default_draft = record {
  channel = text "stable";
  profile = text "minimal";
  components = [];
  targets = [];
  source = text "default";
  file_hash = text "none";
}

abbrev pub draft_of_toml : Host → Text → Text → Option Json → Draft
draft_of_toml host source file_hash toolchain = record {
  channel = string_or (prop toolchain (text "channel")) (text "stable");
  profile = string_or (prop toolchain (text "profile")) (text "minimal");
  components = normalize_list host.to_text (prop toolchain (text "components"));
  targets = normalize_list host.to_text (prop toolchain (text "targets"));
  source = source;
  file_hash = file_hash;
}

abbrev pub parsed_or_error : Text → Result Json → Result Json
parsed_or_error path (ok value) = ok value
parsed_or_error path (err message) =
    err (text "failed to parse toolchain file " ++ (path ++ (text ": " ++ message)))

unfoldable pub draft_of_file : Host → Options → Result Draft
unfolding prop text normalize_list
draft_of_file host opts =
    let path = host.join_path opts.workspace opts.toolchain_file in
    if not_empty opts.toolchain_file && host.exists path
    then (parsed_or_error path (host.parse_toml (host.read_file path)) >>= λ value. ok (
        draft_of_toml host (host.posix_relative opts.workspace path)
          (host.short_hash (host.read_file path)) (prop (some value) (text "toolchain"))))
    else ok default_draft

abbrev pub overridden : Text → Draft → Draft
overridden [] draft = draft
overridden (c ∷ s) draft = record {
  channel = trim (c ∷ s);
  profile = draft.profile;
  components = draft.components;
  targets = draft.targets;
  source = text "input";
  file_hash = draft.file_hash;
}

abbrev pub spec_of : Host → Draft → ToolchainSpec
spec_of host draft = record {
  channel = draft.channel;
  cache_channel = resolve_toolchain_cache_channel host.fetch host.parse_toml draft.channel;
  profile = draft.profile;
  components = draft.components;
  targets = draft.targets;
  source = draft.source;
  file_hash = draft.file_hash;
}

unfoldable pub load_toolchain_spec : Host → Options → Result ToolchainSpec
unfolding draft_of_file resolve_toolchain_cache_channel trim text
load_toolchain_spec host opts = draft_of_file host opts >>= λ draft.
    ok (spec_of host (overridden opts.toolchain_override draft))

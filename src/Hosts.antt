-- ===== src/Hosts.antt =====
-- crates/border-dns-domain-knowledge/src/hosts_table.rs: the table of static addresses. The parser of
-- addresses of the standard library and the file system are parameters: what a text is the address
-- of, when a file was changed, and the lines of a file that can be read.
pub mod Reload
pub mod Match
mod Examples
use border_dns.Prelude.{
  ℕ, ◌+◌, Bool, true, false, not, ◌&&◌, ◌||◌, Option, none, some, List, [], ◌∷◌, ◌++◌, length,
  get_or, set, if◌then◌else◌, ◌==◌,
}
use border_dns.Text.{
  Text, text_eq, is_empty, to_lowercase, strip_last, starts_with, trim, split_whitespace,
}
use border_dns.Types.Codes.{QType, exact, a, aaaa}
use border_dns.Geo.{IpAddr, v4, v6}

pub record HostEntry : Type 0 where
  pub domain : Text
  pub ip : IpAddr

pub record HostsTable : Type 0 where
  pub entries : List HostEntry
  pub file_paths : List Text
  pub file_mtimes : List (Option ℕ)

-- `HostsTable::new`
abbrev pub empty_table : HostsTable
empty_table = record { entries = []; file_paths = []; file_mtimes = [] }

abbrev pub is_ipv4 : IpAddr → Bool
is_ipv4 (v4 octets) = true
is_ipv4 (v6 octets) = false

unfoldable pub wants_v4 : QType → Bool
wants_v4 (exact a) = true
wants_v4 _ = false

unfoldable pub wants_v6 : QType → Bool
wants_v6 (exact aaaa) = true
wants_v6 _ = false

unfoldable pub matching : Bool → Bool → Text → List HostEntry → List IpAddr
matching want_v4 want_v6 name [] = []
matching want_v4 want_v6 name (e ∷ entries) =
    let rest = matching want_v4 want_v6 name entries in
    if text_eq e.domain name && ((want_v4 && is_ipv4 e.ip) || (want_v6 && not (is_ipv4 e.ip)))
    then e.ip ∷ rest
    else rest

unfoldable pub match_domain : Text → QType → HostsTable → List IpAddr
match_domain domain qtype t =
    let name = to_lowercase (strip_last b'.' domain) in
    if not (wants_v4 qtype) && not (wants_v6 qtype)
    then []
    else matching (wants_v4 qtype) (wants_v6 qtype) name t.entries

unfoldable pub with_file : Text → HostsTable → HostsTable
with_file path t = record t {
  file_paths = t.file_paths ++ (path ∷ []);
  file_mtimes = t.file_mtimes ++ (none ∷ []);
}

-- `file_mtimes.get(i).and_then(|t| *t)`
unfoldable pub mtime_at : List (Option ℕ) → ℕ → Option ℕ
mtime_at mtimes i = get_or mtimes i none

unfoldable pub same_mtime : Option ℕ → Option ℕ → Bool
same_mtime none none = true
same_mtime (some t) (some u) = t == u
same_mtime _ _ = false

module _ (parse_ip : Text → Option IpAddr) where
  unfoldable pub with_entry : Text → Text → HostsTable → HostsTable
  with_entry domain ip t = elim (parse_ip ip) [
    | some addr ↦ record t {
      entries = t.entries ++ (record { domain = to_lowercase domain; ip = addr } ∷ []);
    }
    | none ↦ t
  ]

  -- The names of a line, behind its address.
  unfoldable pub line_names : IpAddr → List Text → List HostEntry
  line_names ip [] = []
  line_names ip (domain_part ∷ parts) =
      let domain = to_lowercase (strip_last b'.' domain_part) in
      let rest = line_names ip parts in
      if is_empty domain then rest else record { domain = domain; ip = ip } ∷ rest

  -- `parts.len() < 2` and the parse of the first of the parts.
  unfoldable pub line_parts : List Text → List HostEntry
  line_parts [] = []
  line_parts (first ∷ []) = []
  line_parts (first ∷ second ∷ parts) = elim (parse_ip first) [
    | some ip ↦ line_names ip (second ∷ parts)
    | none ↦ []
  ]

  unfoldable pub line_entries : Text → List HostEntry
  line_entries line =
      let line = trim line in
      if is_empty line || starts_with line (b'#' ∷ [])
      then []
      else line_parts (split_whitespace line)

  unfoldable pub file_entries : List Text → List HostEntry
  file_entries [] = []
  file_entries (line ∷ lines) = line_entries line ++ file_entries lines

  -- The file system at one time: when each file was changed, and its lines if it can be read.
  module _ (modified : Text → Option ℕ) (read_lines : Text → Option (List Text)) where
    unfoldable pub content_entries : Option (List Text) → List HostEntry
    content_entries none = []
    content_entries (some lines) = file_entries lines

    -- The loop from the `i`-th path on.
    unfoldable pub reload_from : ℕ → List Text → HostsTable → HostsTable
    reload_from i [] t = t
    reload_from i (path ∷ paths) t = reload_from (i + 1) paths (record t {
      entries = t.entries ++ content_entries (read_lines path);
      file_mtimes = set t.file_mtimes i (modified path);
    })

    unfoldable pub reload_all_files : HostsTable → HostsTable
    reload_all_files t = reload_from 0 t.file_paths t

    unfoldable pub build : HostsTable → HostsTable
    build t = reload_all_files t

    unfoldable pub changed_from : ℕ → List Text → List (Option ℕ) → Bool
    changed_from i [] mtimes = false
    changed_from i (path ∷ paths) mtimes =
        not (same_mtime (modified path) (mtime_at mtimes i)) || changed_from (i + 1) paths mtimes

    unfoldable pub has_file_changes : HostsTable → Bool
    has_file_changes t = changed_from 0 t.file_paths t.file_mtimes

    unfoldable pub reload_if_changed : HostsTable → Bool × HostsTable
    reload_if_changed t =
        if not (has_file_changes t) then (false, t) else (true, reload_all_files t)

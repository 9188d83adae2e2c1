-- ===== src/Hosts/Reload.antt =====
-- What a reload of the files does.
use border_dns.Prelude.{
  ℕ, zero, suc, ◌+◌, ◌≤◌, ◌<◌, ◌≡◌, refl, sym, ap, ◌∙◌, Bool, true, false, not, ◌&&◌, Option, none,
  some, List, [], ◌∷◌, ◌++◌, length, get_or, set, arith, append-nil, append_assoc, Bool-cases, inl,
  inr,
}
use border_dns.Text.{Text}
use border_dns.Types.Codes.{QType}
use border_dns.Geo.{IpAddr}
use border_dns.Hosts.{
  HostEntry, HostsTable, wants_v4, wants_v6, matching, match_domain, mtime_at, same_mtime,
  content_entries, reload_from, reload_all_files, changed_from, has_file_changes, reload_if_changed,
}

matching-append :
    (want_v4 want_v6 : Bool) (name : Text) (xs ys : List HostEntry)
    → matching want_v4 want_v6 name (xs ++ ys)
      ≡ matching want_v4 want_v6 name xs ++ matching want_v4 want_v6 name ys
unfolding matching
matching-append want_v4 want_v6 name [] ys = refl
matching-append want_v4 want_v6 name (e ∷ xs) ys =
    ground (arith, matching-append want_v4 want_v6 name xs ys)

same_mtime_refl : (t : Option ℕ) → same_mtime t t ≡ true
unfolding same_mtime
same_mtime_refl none = refl
same_mtime_refl (some t) = ground arith

get_or-set :
    (xs : List (Option ℕ)) (i : ℕ) (x : Option ℕ) → i < length xs → get_or (set xs i x) i none ≡ x
get_or-set [] i x h = absurd (omega arith)
get_or-set (y ∷ xs) zero x h = refl
get_or-set (y ∷ xs) (suc i) x h = get_or-set xs i x (omega arith)

length-set : (xs : List (Option ℕ)) (i : ℕ) (x : Option ℕ) → length (set xs i x) ≡ length xs
length-set [] i x = refl
length-set (y ∷ xs) zero x = refl
length-set (y ∷ xs) (suc i) x = ap suc (length-set xs i x)

module _ (parse_ip : Text → Option IpAddr) (modified : Text → Option ℕ)
    (read_lines : Text → Option (List Text)) where
  -- What the files hold.
  unfoldable pub files_entries : List Text → List HostEntry
  files_entries [] = []
  files_entries (path ∷ paths) =
      content_entries parse_ip modified read_lines (read_lines path) ++ files_entries paths

  reload_from-entries :
      (i : ℕ) (paths : List Text) (t : HostsTable)
      → (reload_from parse_ip modified read_lines i paths t).entries
        ≡ t.entries ++ files_entries paths
  unfolding reload_from files_entries
  reload_from-entries i [] t = sym (append-nil t.entries)
  reload_from-entries i (path ∷ paths) t =
      reload_from-entries (i + 1) paths _ ∙ append_assoc t.entries _ _

  reload_from-mtimes_before :
      (i j : ℕ) (paths : List Text) (t : HostsTable)
      → j < i
      → get_or (reload_from parse_ip modified read_lines i paths t).file_mtimes j none
        ≡ get_or t.file_mtimes j none
  unfolding reload_from
  reload_from-mtimes_before i j [] t h = refl
  reload_from-mtimes_before i j (path ∷ paths) t h =
      reload_from-mtimes_before (i + 1) j paths _ (omega arith)
      ∙ get_or-set_other t.file_mtimes i j (modified path) h
    where
      get_or-set_other :
          (xs : List (Option ℕ)) (i j : ℕ) (x : Option ℕ)
          → j < i
          → get_or (set xs i x) j none ≡ get_or xs j none
      get_or-set_other [] i j x h = refl
      get_or-set_other (y ∷ xs) zero j x h = absurd (omega arith)
      get_or-set_other (y ∷ xs) (suc i) zero x h = refl
      get_or-set_other (y ∷ xs) (suc i) (suc j) x h = get_or-set_other xs i j x (omega arith)

  reload_from-paths :
      (i : ℕ) (paths : List Text) (t : HostsTable)
      → (reload_from parse_ip modified read_lines i paths t).file_paths ≡ t.file_paths
  unfolding reload_from
  reload_from-paths i [] t = refl
  reload_from-paths i (path ∷ paths) t = reload_from-paths (i + 1) paths _

  reload_from-unchanged :
      (i : ℕ) (paths : List Text) (t : HostsTable)
      → i + length paths ≤ length t.file_mtimes
      → changed_from parse_ip modified read_lines i paths
          (reload_from parse_ip modified read_lines i paths t).file_mtimes
        ≡ false
  unfolding reload_from changed_from mtime_at
  reload_from-unchanged i [] t h = refl
  reload_from-unchanged i (path ∷ paths) t h =
      let at : get_or (set t.file_mtimes i (modified path)) i none ≡ modified path =
        get_or-set t.file_mtimes i (modified path) (omega arith) in
      let here =
        reload_from-mtimes_before (i + 1) i paths
          (record t {
            entries = t.entries ++ content_entries parse_ip modified read_lines (read_lines path);
            file_mtimes = set t.file_mtimes i (modified path);
          })
          (omega arith)
        ∙ at in
      let later =
        reload_from-unchanged (i + 1) paths
          (record t {
            entries = t.entries ++ content_entries parse_ip modified read_lines (read_lines path);
            file_mtimes = set t.file_mtimes i (modified path);
          })
          (omega (arith, length-set t.file_mtimes i (modified path))) in
      rw (here, same_mtime_refl (modified path)) later

  -- A reload keeps every entry of the table and adds what the files hold: a lookup finds the addresses
  -- that it found before, those that an earlier load took from the same files included, and behind
  -- them those of the files.
  pub match_domain-reload_all_files :
      (domain : Text) (qtype : QType) (t : HostsTable)
      → match_domain domain qtype (reload_all_files parse_ip modified read_lines t)
        ≡ match_domain domain qtype t
          ++ match_domain domain qtype (record t { entries = files_entries t.file_paths })
  unfolding match_domain reload_all_files
  match_domain-reload_all_files domain qtype t =
      elim (Bool-cases (not (wants_v4 qtype) && not (wants_v6 qtype))) [
        | inl e ↦ rw e refl
        | inr e ↦
            rw (e, reload_from-entries 0 t.file_paths t)
              (matching-append _ _ _ t.entries (files_entries t.file_paths))
      ]

  -- A table with a time for each of its files, reloaded, is up to date: as long as no file changes,
  -- the next check reloads nothing and leaves the table as it is.
  pub reload_if_changed-reload_all_files :
      (t : HostsTable)
      → length t.file_paths ≡ length t.file_mtimes
      → reload_if_changed parse_ip modified read_lines
          (reload_all_files parse_ip modified read_lines t)
        ≡ (false, reload_all_files parse_ip modified read_lines t)
  unfolding reload_if_changed has_file_changes reload_all_files
  reload_if_changed-reload_all_files t h =
      let same : changed_from parse_ip modified read_lines 0
            (reload_from parse_ip modified read_lines 0 t.file_paths t).file_paths
            (reload_from parse_ip modified read_lines 0 t.file_paths t).file_mtimes
          ≡ false =
        ap
          (λ ps.
            changed_from parse_ip modified read_lines 0 ps
              (reload_from parse_ip modified read_lines 0 t.file_paths t).file_mtimes)
          (reload_from-paths 0 t.file_paths t)
        ∙ reload_from-unchanged 0 t.file_paths t (omega arith) in
      rw same refl

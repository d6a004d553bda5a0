-- ===== src/Ftp/Tests.antt =====
-- cms/cmsftpd.c: paths on two minidisks, A and D.
use nicof.Prelude.{
  ◌+◌, ◌≡◌, refl, ℕ, true, false, none, some, List, [], ◌∷◌, ◌++◌, ltb, if◌then◌else◌,
}
use nicof.Prelude.{arith}
use nicof.Ftp.{
  slash, dot, ends, is_dot, enter, entered, disk_loop, get_disk_idx, dir_turn, dir_loop,
  get_dir_idx,
}
use nicof.Ftp.Paths.{up, disk, below, text, follow, get_dir_idx-follow, dir_loop_stuck}
use nicof.Prelude.{Bool, ◌≤◌, ◌&&◌, ◌==◌, map, length, length-map}
use nicof.Prelude.Int.{ℤ}
use nicof.Ftp.Specs.{
  Override, parsed, parse_full_path, add_override, scan, spot, is_bad, parse_at, locate, place_of,
  named, formatted, overridden, find_override,
}
use nicof.Prelude.{◌+◌}
use nicof.Sockets.{fd_zero}
use nicof.Ftp.Sessions.{
  Clients, new_session, IsSound, add_client_sock, drop_client_sock, client_socks-IsSound,
}
use nicof.Ftp.Specs.Names.{plain_spec, parse_full_path-name}
use nicof.Ftp.Specs.Bounds.{AllFit, parse_full_path-AllFit}

-- Letters of EBCDIC: the first nine in lower case are 0x40 below those in upper case.
abbrev upper_case : ℕ → ℕ
upper_case c = if ltb c 0xc1 then c + 0x40 else c

abbrev disks : List ℕ
disks = 0xc1 ∷ 0xc4 ∷ []

-- "/a/../d/" and, from D, "a/../d/".
get_dir_idx-follow_example :
    (get_dir_idx upper_case disks (some 1) (below true (disk 0x81 ∷ up ∷ disk 0x84 ∷ []))
      ≡ some (follow upper_case disks (disk 0x81 ∷ up ∷ disk 0x84 ∷ []) none))
    × (get_dir_idx upper_case disks (some 1) (text (disk 0x81) ++ below true (up ∷ disk 0x84 ∷ []))
        ≡ some (follow upper_case disks (disk 0x81 ∷ up ∷ disk 0x84 ∷ []) (some 1)))
get_dir_idx-follow_example =
    get_dir_idx-follow upper_case disks true (disk 0x81) (up ∷ disk 0x84 ∷ []) (some 1)
      ((omega arith, omega arith), (refl, ((omega arith, omega arith), tt)))

-- ".d".
dir_loop_stuck_example : dir_loop upper_case disks 100 (dot ∷ 0x84 ∷ []) none false ≡ none
unfolding ends is_dot
dir_loop_stuck_example = dir_loop_stuck upper_case disks (0x84 ∷ []) none false 100 refl refl

lower_d : get_dir_idx upper_case disks none (slash ∷ 0x84 ∷ slash ∷ []) ≡ some (some (some 1))
unfolding get_dir_idx dir_loop dir_turn ends entered enter get_disk_idx disk_loop
lower_d = refl

abbrev same : List ℕ → List ℕ → Bool
same [] [] = true
same [] (d ∷ t) = false
same (c ∷ s) [] = false
same (c ∷ s) (d ∷ t) = c == d && same s t

-- Files of type "B" are binary, with records of 80 characters.
abbrev overrides : List Override
overrides = add_override upper_case (map upper_case) same (0x82 ∷ []) true 0x86 (ℤ.pos 80) []

-- "a.b" on D.
parse_full_path-name_example :
    parse_full_path upper_case
      (map upper_case)
      same
      overrides
      disks
      (some 1)
      false
      (0x81 ∷ dot ∷ 0x82 ∷ [])
    ≡ some (
        parsed
          (plain_spec upper_case (map upper_case) same overrides 1 false (0x81 ∷ []) (0x82 ∷ [])))
parse_full_path-name_example =
    parse_full_path-name upper_case (map upper_case) same overrides disks 1 false (0x81 ∷ [])
      (0x82 ∷ []) ((omega arith, (omega arith, (omega arith, omega arith))), tt)
      ((omega arith, (omega arith, (omega arith, omega arith))), tt) (omega arith) (omega arith)

shorter : (s : List ℕ) → length (map upper_case s) ≤ length s
shorter s = omega (arith, length-map s upper_case)

-- "/d/a.b:f9".
parse_full_path-AllFit_example : AllFit (
    parse_full_path upper_case
      (map upper_case)
      same
      overrides
      disks
      none
      false
      (slash ∷ 0x84 ∷ slash ∷ 0x81 ∷ dot ∷ 0x82 ∷ 0x7a ∷ 0x86 ∷ 0xf9 ∷ []))
parse_full_path-AllFit_example =
    parse_full_path-AllFit upper_case (map upper_case) same shorter overrides disks none false
      (slash ∷ 0x84 ∷ slash ∷ 0x81 ∷ dot ∷ 0x82 ∷ 0x7a ∷ 0x86 ∷ 0xf9 ∷ [])

-- "../a.c": a file of the root is parsed, with no minidisk.
root_file :
    parse_full_path upper_case
      (map upper_case)
      same
      []
      disks
      (some 1)
      false
      (dot ∷ dot ∷ slash ∷ 0x81 ∷ dot ∷ 0x83 ∷ [])
    ≡ some (
        parsed (record {
          disk_idx = none;
          fn = 0xc1 ∷ [];
          ft = 0xc3 ∷ [];
          recfm = 0xe5;
          lrecl = ℤ.pos 80;
          replace = false;
          binary = false;
        }))
unfolding parse_full_path scan spot is_bad parse_at locate place_of get_dir_idx dir_loop dir_turn
    ends is_dot named formatted overridden find_override
root_file = refl

abbrev two_clients : Clients
two_clients = record {
  client_socks = fd_zero;
  client_sock_count = 2;
  last_sock_plus1 = 9;
  sessions = new_session 8 ∷ new_session 5 ∷ [];
}

client_socks-IsSound_example :
    IsSound (add_client_sock 11 two_clients)
    × IsSound (drop_client_sock 5 two_clients).0
    × ((drop_client_sock 5 two_clients).1.1
        ≡ (length (drop_client_sock 5 two_clients).0.sessions == 0))
client_socks-IsSound_example =
    client_socks-IsSound 11 5 two_clients (refl, (omega arith, (omega arith, tt))) (omega arith)
      refl

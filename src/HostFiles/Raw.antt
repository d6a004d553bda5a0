-- ===== src/HostFiles/Raw.antt =====
-- cms/svcrnhfs.c: the client of the raw host file service.
use nicof.Prelude.{ℕ, Bool, true, false, Option, none, some, List, [], ◌∷◌, ltb, if◌then◌else◌}
use nicof.Prelude.Int.{is_zero}
use nicof.Stream.{Stream}
use nicof.HostFiles.{
  Services, Remote, ServiceClient, text_ask, plain_ask, init_client, client_call, client_stream,
  new_bulk_source, new_bulk_sink,
}

abbrev pub bytes_of : Option (List ℕ) → List ℕ
bytes_of none = []
bytes_of (some bytes) = bytes

module _ {ℓ} {S : Type ℓ} (services : Services S) where
  -- rnhfs011: "RawHostFileSvc".
  abbrev pub rawhostfs_init : ServiceClient → Remote S → Option (Remote S × ServiceClient × Bool)
  rawhostfs_init = init_client services (
      0xd9 ∷ 0x81 ∷ 0xa6 ∷ 0xc8 ∷ 0x96 ∷ 0xa2 ∷ 0xa3 ∷ 0xc6 ∷ 0x89 ∷ 0x93 ∷ 0x85 ∷ 0xe2 ∷ 0xa5
      ∷ 0x83 ∷ [])

  -- rhnfs012: what is left in the buffer, and whether the call has succeeded.
  unfoldable pub rawhostfs_get_wd :
      ℕ → ServiceClient → Remote S → Option (Remote S × ServiceClient × List ℕ × Bool)
  rawhostfs_get_wd buffer_length c r =
      elim (client_call services
        (plain_ask c.svc_id 1 (if ltb 2047 buffer_length then 2047 else buffer_length)) true c r) [
          | none ↦ none
          | some (t, d, out) ↦
              if is_zero out.rc
              then some (t, d, bytes_of out.bytes, true)
              else some (t, d, [], false)
        ]

  -- rhnfs013
  unfoldable pub rawhostfs_change_wd :
      List ℕ → ServiceClient → Remote S → Option (Remote S × ServiceClient × Bool)
  rawhostfs_change_wd dir_name c r =
      elim (client_call services (text_ask c.svc_id 2 0 dir_name) false c r) [
        | none ↦ none
        | some (t, d, out) ↦ some (t, d, is_zero out.rc)
      ]

  -- rhnfs014; no pattern is NULL.
  unfoldable pub rawhostfs_list :
      Option (List ℕ)
      → Stream
      → ℕ
      → ServiceClient
      → Remote S
      → Option (Remote S × ServiceClient × Option Stream)
  rawhostfs_list pattern block garbage c r =
      client_stream services (text_ask c.svc_id 3 0 (bytes_of pattern)) new_bulk_source true true
        block garbage c r

  -- rhnfs015
  unfoldable pub rawhostfs_getfile :
      List ℕ
      → Bool
      → Stream
      → ℕ
      → ServiceClient
      → Remote S
      → Option (Remote S × ServiceClient × Option Stream)
  rawhostfs_getfile name text block garbage c r =
      client_stream services (text_ask c.svc_id 4 0 name) new_bulk_source true text block garbage c
        r

  -- rhnfs016
  unfoldable pub rawhostfs_putfile :
      List ℕ
      → (overwrite text : Bool) → Stream
      → ℕ
      → ServiceClient
      → Remote S
      → Option (Remote S × ServiceClient × Option Stream)
  rawhostfs_putfile name overwrite text block garbage c r =
      client_stream services (text_ask c.svc_id 5 (if overwrite then 1 else 0) name) new_bulk_sink
        false text block garbage c r

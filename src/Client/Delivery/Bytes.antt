-- ===== src/Client/Delivery/Bytes.antt =====
-- cms/nicofclt.c: a response read byte by byte.
use nicof.Prelude.{
  ℕ, zero, suc, ◌≤◌, ◌<◌, ◌≡◌, refl, ap, none, some, List, [], ◌∷◌, arith, take, get_or, leb,
  if◌then◌else◌,
}
use nicof.Client.{
  Request, Client, max_packet_len, mid_rtrn, rc, rc_ok, getrespdata, find, get_response_data,
  get_response_data_byte,
}
use nicof.Client.Delivery.Taking.{returned, data-returned}

get_or-take {ℓ} :
    {A : Type ℓ} (n i : ℕ) (xs : List A) (d : A) → i < n → get_or (take n xs) i d ≡ get_or xs i d
get_or-take zero i xs d h = absurd (omega arith)
get_or-take (suc n) i [] d h = refl
get_or-take (suc n) zero (x ∷ xs) d h = refl
get_or-take (suc n) (suc i) (x ∷ xs) d h = get_or-take n i xs d (omega arith)

-- Of a returned request whose data fit a packet, ncf_043 gives the byte at an index of the data
-- that ncf_041 copies, and beyond their length it fails with code 3 and a zero byte.
pub get_response_data_byte-get_response_data :
    (h idx : ℕ) (c : Client) (r : Request)
    → find h c.requests ≡ some r
    → r.msg_id ≡ mid_rtrn
    → r.data_len ≤ max_packet_len
    → (bytes : List ℕ) × ((get_response_data h max_packet_len none 0 c).2 ≡ some bytes)
      × ((get_response_data_byte h idx c).1
          ≡ (if leb r.data_len idx then rc 3 getrespdata else rc_ok))
      × ((get_response_data_byte h idx c).2
          ≡ (if leb r.data_len idx then 0 else get_or bytes idx 0))
unfolding get_response_data_byte
get_response_data_byte-get_response_data h idx c r e n fits = (
  take r.data_len r.buf,
  ap (λ x. x.2) (data-returned h c r e n none fits),
  ground (arith, returned h c r e n),
  ground (arith, returned h c r e n, get_or-take r.data_len idx r.buf 0),
)

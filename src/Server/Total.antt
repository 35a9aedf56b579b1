-- ===== src/Server/Total.antt =====
-- The for loop of HandleTCPClient in client_server/mtserver.c ends.
use distributed_system.Base.{
  ℕ, zero, suc, ◌+◌, ◌-◌, ◌*◌, ◌≤◌, ◌<◌, ◌≡◌, refl, ap, inl, inr, Bool, true, false, Option, none,
  some, List, [], ◌∷◌, ◌++◌, arith, ltb, leb, if◌then◌else◌, length, replicate,
}
use distributed_system.Server.Client.{Client, rcv_buf_size}
use distributed_system.Outcome.{Outcome, exited, running, undefined}
use distributed_system.Server.Parse.{
  body, scan, Input, bytes, handle_tcp_client, receive, recv_error, scan_fuel, text_of,
}
use distributed_system.Server.Turns.{Continues, IsProgress, body-IsProgress}

-- With a buffer of 31 bytes at most, each turn takes at least one from this.
measure : Client → ℕ
measure s = 32 * length s.my_buffer + (length s.my_buffer + 1 - s.my_char)

-- The loop ends, and the property holds if the function goes on.
pub Returns : Option (Outcome Client) → (Client → Type 0) → Type 0
unfolding Continues
Returns none P = ⊥
Returns (some o) P = Continues P o

-- What the for loop leaves: a buffer that is not full, read to its end.
abbrev pub IsScanned : Client → Type 0
IsScanned t = (length t.my_buffer < rcv_buf_size) × (length t.my_buffer < t.my_char)

scan-measure :
    (fuel : ℕ) (s : Client)
    → 1 ≤ s.my_char
    → length s.my_buffer < rcv_buf_size
    → measure s < fuel
    → Returns (scan fuel s) IsScanned
unfolding scan measure Returns Continues IsProgress
scan-measure zero s first short h = absurd (omega (arith, h))
scan-measure (suc fuel) s first short h =
    turn (λ u f k m. scan-measure fuel u f k m) (leb s.my_char (length s.my_buffer)) refl
  where
    go :
        ((u : Client)
          → 1 ≤ u.my_char
          → length u.my_buffer < rcv_buf_size
          → measure u < fuel
          → Returns (scan fuel u) IsScanned)
        → s.my_char ≤ length s.my_buffer
        → (o : Outcome Client) → Continues (IsProgress s) o
        → Returns
            (elim o [
              | running t ↦ scan fuel (record t { my_char = t.my_char + 1 })
              | exited t ↦ some (exited t)
              | undefined ↦ some undefined
            ])
            IsScanned
    go again within (running t) (inl (b, c)) =
        let l : length t.my_buffer ≡ length s.my_buffer = ap length b in
        again (record t { my_char = t.my_char + 1 }) (omega arith) (omega (arith, l, short))
          (omega (arith, l, c, within, h))
    go again within (running t) (inr (fewer, c)) =
        again (record t { my_char = t.my_char + 1 }) (omega arith) (omega (arith, fewer, short))
          (omega (arith, fewer, c, within, h, short))
    go again within (exited t) p = tt
    go again within undefined p = tt

    turn :
        ((u : Client)
          → 1 ≤ u.my_char
          → length u.my_buffer < rcv_buf_size
          → measure u < fuel
          → Returns (scan fuel u) IsScanned)
        → (b : Bool) → leb s.my_char (length s.my_buffer) ≡ b
        → Returns
            (elim b [
              | false ↦ some (running s)
              | true ↦ elim (body s) [
                | running t ↦ scan fuel (record t { my_char = t.my_char + 1 })
                | exited t ↦ some (exited t)
                | undefined ↦ some undefined
              ]
            ])
            IsScanned
    turn again false e = (short, ground (arith, e))
    turn again true e =
        let within : s.my_char ≤ length s.my_buffer = ground (arith, e) in
        go again within (body s) (body-IsProgress s first within)

receive-total : (packet : List ℕ) (s : Client) → Returns (receive packet s) IsScanned
unfolding receive Returns Continues measure
receive-total packet s = go (text_of (packet ++ replicate (rcv_buf_size - length packet) 0))
  where
    fits :
        (text : List ℕ) (b : Bool)
        → ltb (length (s.my_buffer ++ text)) rcv_buf_size ≡ b
        → Returns
            (if b
              then scan scan_fuel (record s { my_buffer = s.my_buffer ++ text; my_char = 1 })
              else some undefined)
            IsScanned
    fits text false e = tt
    fits text true e =
        scan-measure scan_fuel (record s { my_buffer = s.my_buffer ++ text; my_char = 1 })
          (omega arith) (ground (arith, e)) (ground (arith, e))

    go :
        (o : Option (List ℕ))
        → Returns
            (elim o [
              | none ↦ some undefined
              | some text ↦
                  if ltb (length (s.my_buffer ++ text)) rcv_buf_size
                  then scan scan_fuel (record s { my_buffer = s.my_buffer ++ text; my_char = 1 })
                  else some undefined
            ])
            IsScanned
    go none = tt
    go (some text) = fits text (ltb (length (s.my_buffer ++ text)) rcv_buf_size) refl

-- Whatever bytes a client sends, in whatever packets, each for loop of its thread ends within the
-- fuel, and while the thread goes on its buffer has room for the null byte.
pub handle_tcp_client_total :
    (s : Client) (is : List Input)
    → length s.my_buffer < rcv_buf_size
    → Returns (handle_tcp_client s is) (λ t. length t.my_buffer < rcv_buf_size)
unfolding handle_tcp_client Returns Continues
handle_tcp_client_total s [] h = h
handle_tcp_client_total s (recv_error ∷ is) h = tt
handle_tcp_client_total s (bytes [] ∷ is) h = tt
handle_tcp_client_total s (bytes (c ∷ cs) ∷ is) h =
    go (λ t k. handle_tcp_client_total t is k) (receive (c ∷ cs) s) (receive-total (c ∷ cs) s)
  where
    go :
        ((t : Client)
          → length t.my_buffer < rcv_buf_size
          → Returns (handle_tcp_client t is) (λ t. length t.my_buffer < rcv_buf_size))
        → (o : Option (Outcome Client)) → Returns o IsScanned
        → Returns
            (elim o [
              | none ↦ none
              | some undefined ↦ some undefined
              | some (exited t) ↦ some (exited t)
              | some (running t) ↦ handle_tcp_client t is
            ])
            (λ t. length t.my_buffer < rcv_buf_size)
    go again none p = p
    go again (some undefined) p = tt
    go again (some (exited t)) p = tt
    go again (some (running t)) p = again t p.0

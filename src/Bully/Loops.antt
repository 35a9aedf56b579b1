-- ===== src/Bully/Loops.antt =====
-- What the loops over the group in bully_algorithm/node.c come to, where every host is found.
use distributed_system.Base.{
  ℕ, ◌%◌, ◌≡◌, refl, ap, ◌∙◌, inl, inr, Bool, true, false, ◌||◌, Option, none, some, List, [], ◌∷◌,
  arith, ltb, if◌then◌else◌, Bool-cases,
}
use distributed_system.Outcome.{◌>>=◌, Outcome, exited, running}
use distributed_system.Msg.{Addr}
use distributed_system.Bully.State.{
  GroupMem, Node, coord, elect, Effect, sent, logged, construct_msg, send_event, send_msg,
  update_clock, write_event_to_log,
}
use distributed_system.Bully.Elect.{
  address, call_election, declare_coordinator, pass_elect, pass_election, send_coord, to_member,
}

-- Some member has a port above the own one; and below it.
unfoldable pub any_above : ℕ → List GroupMem → Bool
any_above port [] = false
any_above port (g ∷ gs) = ltb port g.portno || any_above port gs

unfoldable pub any_below : ℕ → List GroupMem → Bool
any_below port [] = false
any_below port (g ∷ gs) = ltb g.portno port || any_below port gs

-- gethostbyname finds every host.
abbrev pub FindsAll : (List ℕ → Option ℕ) → Type 0
FindsAll lookup = (name : List ℕ) → (host : ℕ) × (lookup name ≡ some host)

-- What a loop keeps.
abbrev pub Keeps : Node → Node → Type 0
Keeps s t =
    (t.port ≡ s.port)
    × (t.members ≡ s.members)
    × (t.last_received ≡ s.last_received)
    × (t.send_failure_probability ≡ s.send_failure_probability)

-- The packets handed to sendto, the newest first: the address, the kind and the election id.
unfoldable pub packets : List Effect → List (Addr × ℕ × ℕ)
packets [] = []
packets (sent to m ∷ h) = (to, m.msg_id, m.election_id) ∷ packets h
packets (logged m is_send peer vc ∷ h) = packets h

-- The same message to each member that passes the test, one after the other, at its host.
unfoldable pub tells :
    (ℕ → Bool) → (GroupMem → ℕ) → ℕ → ℕ → List GroupMem → List (Addr × ℕ × ℕ) → List (Addr × ℕ × ℕ)
tells test host kind id [] h = h
tells test host kind id (g ∷ gs) h =
    tells test host kind id gs (if test g.portno then (address (host g) g, kind, id) ∷ h else h)

-- The host of a member.
abbrev pub host_of : {lookup : List ℕ → Option ℕ} → FindsAll lookup → GroupMem → ℕ
host_of finds g = (finds g.hostname).0

-- Where no packet is dropped, a send hands over one packet.
pub packets-send_event :
    (kind id : ℕ) (to : Addr) (s : Node)
    → s.send_failure_probability ≡ 0
    → packets (send_event kind id to s).history ≡ (to, kind, id) ∷ packets s.history
unfolding packets send_event update_clock send_msg write_event_to_log construct_msg
packets-send_event kind id to s sure =
    let b : ltb (s.random s.drawn % 100) s.send_failure_probability ≡ false =
      ground (arith, sure) in
    rw b refl

-- A turn of a loop that writes to a member, and one that does not.
pub turn_found :
    (lookup : List ℕ → Option ℕ) (test : Bool) (g : GroupMem) (body : Addr → Node → Node) (s : Node)
    (f : Node → Outcome Node) (host : ℕ)
    → test ≡ true
    → lookup g.hostname ≡ some host
    → ((if test then to_member lookup g body s else running s) >>= f) ≡ f (body (address host g) s)
unfolding to_member
turn_found lookup test g body s f host e found = rw e (
    ap
      (λ (o : Option ℕ).
        elim o [ none ↦ exited s | some host ↦ running (body (address host g) s) ] >>= f)
      found)

pub turn_passed :
    (lookup : List ℕ → Option ℕ) (test : Bool) (g : GroupMem) (body : Addr → Node → Node) (s : Node)
    (f : Node → Outcome Node)
    → test ≡ false
    → ((if test then to_member lookup g body s else running s) >>= f) ≡ f s
turn_passed lookup test g body s f e = rw e refl

pub pass_election-sent :
    (lookup : List ℕ → Option ℕ) (election_id : ℕ) (gs : List GroupMem) (s : Node)
    → (finds : FindsAll lookup) → s.send_failure_probability ≡ 0
    → (t : Node) × (pass_election lookup election_id gs s ≡ running t)
      × Keeps s t
      × (t.last_sent ≡ (if any_above s.port gs then elect else s.last_sent))
      × (packets t.history
          ≡ tells (ltb s.port) (host_of finds) elect election_id gs (packets s.history))
unfolding pass_election any_above tells pass_elect send_event update_clock send_msg
    write_event_to_log
pass_election-sent lookup election_id [] s finds sure =
    (s, refl, (refl, refl, refl, refl), refl, refl)
pass_election-sent lookup election_id (g ∷ gs) s finds sure =
    elim (Bool-cases (ltb s.port g.portno)) [
      | inl e ↦
          let (host, hosted) = finds g.hostname in
          let (t, r, k, l, p) =
            pass_election-sent lookup election_id gs (pass_elect election_id (address host g) s)
              finds sure in
          (
            t,
            turn_found lookup (ltb s.port g.portno) g (pass_elect election_id) s
                  (λ u. pass_election lookup election_id gs u) host e hosted
                ∙ r,
            k,
            ground (arith, l, e),
            rw e (
                p
                ∙ ap (tells (ltb s.port) (host_of finds) elect election_id gs)
                    (packets-send_event elect election_id (address host g) s sure)),
          )
      | inr e ↦
          let (t, r, k, l, p) = pass_election-sent lookup election_id gs s finds sure in
          (
            t,
            turn_passed lookup (ltb s.port g.portno) g (pass_elect election_id) s
                  (λ u. pass_election lookup election_id gs u) e
                ∙ r,
            k,
            rw e l,
            rw e p,
          )
    ]

pub declare_coordinator-sent :
    (lookup : List ℕ → Option ℕ) (gs : List GroupMem) (s : Node)
    → (finds : FindsAll lookup) → s.send_failure_probability ≡ 0
    → (t : Node) × (declare_coordinator lookup gs s ≡ running t)
      × Keeps s t
      × (t.last_sent ≡ (if any_below s.port gs then coord else s.last_sent))
      × (packets t.history
          ≡ tells (λ portno. ltb portno s.port) (host_of finds) coord 0 gs (packets s.history))
unfolding declare_coordinator any_below tells send_coord send_event update_clock send_msg
    write_event_to_log
declare_coordinator-sent lookup [] s finds sure = (s, refl, (refl, refl, refl, refl), refl, refl)
declare_coordinator-sent lookup (g ∷ gs) s finds sure = elim (Bool-cases (ltb g.portno s.port)) [
  | inl e ↦
      let (host, hosted) = finds g.hostname in
      let (t, r, k, l, p) =
        declare_coordinator-sent lookup gs (send_coord (address host g) s) finds sure in
      (
        t,
        turn_found lookup (ltb g.portno s.port) g send_coord s
              (λ u. declare_coordinator lookup gs u) host e hosted
            ∙ r,
        k,
        ground (arith, l, e),
        rw e (
            p
            ∙ ap (tells (λ portno. ltb portno s.port) (host_of finds) coord 0 gs)
                (packets-send_event coord 0 (address host g) s sure)),
      )
  | inr e ↦
      let (t, r, k, l, p) = declare_coordinator-sent lookup gs s finds sure in
      (
        t,
        turn_passed lookup (ltb g.portno s.port) g send_coord s
              (λ u. declare_coordinator lookup gs u) e
            ∙ r,
        k,
        rw e l,
        rw e p,
      )
]

pub call_election-none :
    (lookup : List ℕ → Option ℕ) (gs : List GroupMem) (s : Node)
    → any_above s.port gs ≡ false
    → call_election lookup gs s ≡ running s
unfolding call_election any_above
call_election-none lookup [] s h = refl
call_election-none lookup (g ∷ gs) s h = elim (Bool-cases (ltb s.port g.portno)) [
  | inl e ↦ absurd (ground (arith, e, h))
  | inr e ↦ rw e (call_election-none lookup gs s (ground (arith, e, h)))
]

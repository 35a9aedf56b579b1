-- ===== src/Bully/Reading.antt =====
-- A group file is read back as the members it was written from.
use distributed_system.Base.{
  All-weaken, ℕ, zero, suc, ◌+◌, ◌-◌, ◌*◌, ◌/◌, ◌%◌, ◌^◌, ◌≤◌, ◌<◌, ◌≡◌, refl, ap, ◌∙◌, inl, inr,
  Bool, true, false, not, some, List, [], ◌∷◌, ◌++◌, arith, ltb, ◌==◌, Bool-cases, length, All,
}
use distributed_system.Trace.Write.{digits, decimal}
use distributed_system.Bully.Group.{
  add_member, is_space, skip_spaces, take_until, number_of, is_digit, long_of, scan_digits,
  read_members, scan_sign, port_of,
}
use distributed_system.Trace.Decimal.{one_digit}
use distributed_system.Bully.State.{GroupMem}

-- A byte that is no blank.
abbrev IsMark : ℕ → Type 0
IsMark b = is_space b ≡ false

abbrev IsDigit : ℕ → Type 0
IsDigit b = (48 ≤ b) × (b ≤ 57)

number_of-append :
    (n : ℕ) (bs : List ℕ) (d : ℕ) → number_of n (bs ++ (48 + d) ∷ []) ≡ number_of n bs * 10 + d
unfolding number_of
number_of-append n [] d = omega arith
number_of-append n (b ∷ bs) d = number_of-append (n * 10 + (b - 48)) bs d

number_of-digits : (k n : ℕ) → n < 10 ^ k → number_of 0 (digits k n) ≡ n
unfolding digits number_of
number_of-digits zero n h = omega (arith, h)
number_of-digits (suc k) n h = elim (Bool-cases (ltb n 10)) [
  | inl e ↦ rw e (omega arith)
  | inr e ↦
      let above : 10 ≤ n = ground (arith, e) in
      rw e (
        number_of-append 0 (digits k (n / 10)) (n % 10)
        ∙ omega (arith, number_of-digits k (n / 10) (omega (arith, h))))
]

All-append : (P : ℕ → Type 0) (bs cs : List ℕ) → All P bs → All P cs → All P (bs ++ cs)
All-append P [] cs h k = k
All-append P (b ∷ bs) cs h k = (h.0, All-append P bs cs h.1 k)

digits-IsDigit : (k n : ℕ) → All IsDigit (digits k n)
unfolding digits
digits-IsDigit zero n = tt
digits-IsDigit (suc k) n = elim (Bool-cases (ltb n 10)) [
  | inl e ↦ let below : n < 10 = ground (arith, e) in rw e ((omega arith, omega (arith, below)), tt)
  | inr e ↦ rw e (
      All-append IsDigit (digits k (n / 10)) ((48 + n % 10) ∷ []) (digits-IsDigit k (n / 10))
        ((omega arith, omega arith), tt))
]

-- The bytes in front of a byte of the kind.
take_until-append :
    (stops : ℕ → Bool) (bs rest : List ℕ) (b : ℕ)
    → All (λ x. stops x ≡ false) bs
    → stops b ≡ true
    → take_until stops (bs ++ b ∷ rest) ≡ (bs, b ∷ rest)
unfolding take_until
take_until-append stops [] rest b h e = rw e refl
take_until-append stops (x ∷ bs) rest b h e = rw (h.0, take_until-append stops bs rest b h.1 e) refl

skip_spaces-word :
    (bs rest : List ℕ) → All IsMark bs → 1 ≤ length bs → skip_spaces (bs ++ rest) ≡ bs ++ rest
unfolding skip_spaces
skip_spaces-word [] rest h one = absurd (omega (arith, one))
skip_spaces-word (b ∷ bs) rest h one = rw h.0 refl

digit-stops : (b : ℕ) → IsDigit b → not (is_digit b) ≡ false
unfolding is_digit
digit-stops b h = ground (arith, h.0, h.1)

digit-IsMark : (b : ℕ) → IsDigit b → IsMark b
unfolding is_space
digit-IsMark b h = ground (arith, h.0, h.1)

-- A number of digits, and a line end behind it.
scan_digits-number :
    (ds rest : List ℕ) (n : ℕ)
    → All IsDigit ds
    → 1 ≤ length ds
    → number_of 0 ds ≡ n
    → n < 2 ^ 63
    → scan_digits false (ds ++ 10 ∷ rest) ≡ (some n, 10 ∷ rest)
unfolding scan_digits is_digit long_of
scan_digits-number ds rest n h one value small =
    rw
      (
        take_until-append (λ b. not (is_digit b)) ds rest 10 (All-weaken ds digit-stops h) refl,
        value,
      )
      (ground (arith, one, small))

scan_sign-digits :
    (ds rest : List ℕ)
    → All IsDigit ds
    → 1 ≤ length ds
    → scan_sign (ds ++ rest) ≡ scan_digits false (ds ++ rest)
unfolding scan_sign
scan_sign-digits [] rest h one = absurd (omega (arith, one))
scan_sign-digits (d ∷ ds) rest (h, hs) one =
    let minus : (d == 45) ≡ false = ground (arith, h.0) in
    let plus : (d == 43) ≡ false = ground (arith, h.0) in rw (minus, plus) refl

-- A port as it is written in the file, and a line end behind it.
scan_sign-decimal :
    (n : ℕ) (rest : List ℕ)
    → n < 2 ^ 63
    → scan_sign (skip_spaces (32 ∷ (decimal n ++ (10 ∷ rest)))) ≡ (some n, 10 ∷ rest)
unfolding decimal skip_spaces is_space
scan_sign-decimal n rest small =
    ap scan_sign (
      skip_spaces-word (digits 20 n) (10 ∷ rest)
        (All-weaken (digits 20 n) digit-IsMark (digits-IsDigit 20 n)) (one_digit 19 n))
    ∙ scan_sign-digits (digits 20 n) (10 ∷ rest) (digits-IsDigit 20 n) (one_digit 19 n)
    ∙ scan_digits-number (digits 20 n) rest n (digits-IsDigit 20 n) (one_digit 19 n)
        (number_of-digits 20 n (omega (arith, small))) small

read_members-blank :
    (unset : ℕ → ℕ) (left : ℕ) (rest : List ℕ)
    → read_members unset left (10 ∷ rest) ≡ read_members unset left rest
unfolding read_members skip_spaces is_space
read_members-blank unset zero rest = refl
read_members-blank unset (suc left) rest = refl

-- One turn of the loop.
read_members-turn :
    (unset : ℕ → ℕ) (left : ℕ) (g : GroupMem) (bytes rest next : List ℕ)
    → skip_spaces bytes ≡ bytes
    → take_until is_space bytes ≡ (g.hostname, rest)
    → scan_sign (skip_spaces rest) ≡ (some g.portno, next)
    → 1 ≤ length g.hostname
    → length g.hostname < 32
    → read_members unset (suc left) bytes ≡ add_member g (read_members unset left next)
unfolding read_members port_of
read_members-turn unset left g bytes rest next start word port one short =
    let some_byte : (length g.hostname == 0) ≡ false = ground (arith, one) in
    let fits : ltb (length g.hostname) 32 ≡ true = ground (arith, short) in
    rw (read_members, start, word, port, some_byte, fits) refl

-- A member whose name is a word of fewer than 32 bytes and whose port is a long.
abbrev pub IsWritten : GroupMem → Type 0
IsWritten g =
    All (λ b. is_space b ≡ false) g.hostname
    × (1 ≤ length g.hostname)
    × (length g.hostname < 32)
    × (g.portno < 2 ^ 63)

-- The lines of a file of the members.
unfoldable pub group_text : List GroupMem → List ℕ
group_text [] = []
group_text (g ∷ gs) = g.hostname ++ (32 ∷ (decimal g.portno ++ (10 ∷ group_text gs)))

-- readGroupListFile reads the lines of any members, of which each name is a word of fewer than 32
-- bytes and each port a long, as these members in their order, if the array has room for them.
pub read_members-group_text :
    (unset : ℕ → ℕ) (left : ℕ) (gs : List GroupMem)
    → All IsWritten gs
    → length gs ≤ left
    → read_members unset left (group_text gs) ≡ some gs
unfolding group_text is_space add_member
read_members-group_text unset zero [] h room = unfold read_members skip_spaces in refl
read_members-group_text unset (suc left) [] h room =
    unfold read_members skip_spaces take_until in refl
read_members-group_text unset zero (g ∷ gs) h room = absurd (omega (arith, room))
read_members-group_text unset (suc left) (g ∷ gs) ((word, one, short, small), hs) room =
    read_members-turn unset left g (g.hostname ++ behind) behind (10 ∷ group_text gs)
      (skip_spaces-word g.hostname behind word one)
      (take_until-append is_space g.hostname (decimal g.portno ++ (10 ∷ group_text gs)) 32 word
        refl)
      (scan_sign-decimal g.portno (group_text gs) small) one short
    ∙ rw
        (
          read_members-blank unset left (group_text gs),
          read_members-group_text unset left gs hs (omega (arith, room)),
        )
        refl
  where
    behind : List ℕ
    behind = 32 ∷ (decimal g.portno ++ (10 ∷ group_text gs))

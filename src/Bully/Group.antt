-- ===== src/Bully/Group.antt =====
-- readGroupListFile of node.c, with what its scanf("%s %ld") takes off a text. Texts are their bytes.
use distributed_system.Base.{
  ℕ, zero, suc, ◌+◌, ◌-◌, ◌*◌, ◌^◌, Bool, true, false, not, ◌&&◌, ◌||◌, Option, none, some, List,
  [], ◌∷◌, ltb, leb, ◌==◌, if◌then◌else◌, length,
}
use distributed_system.Bully.State.{GroupMem, max_nodes}

unfoldable pub is_space : ℕ → Bool
is_space b = (b == 32) || (leb 9 b && leb b 13)

unfoldable pub is_digit : ℕ → Bool
is_digit b = leb 48 b && leb b 57

unfoldable pub skip_spaces : List ℕ → List ℕ
unfolding is_space
skip_spaces [] = []
skip_spaces (b ∷ bs) = let rest = skip_spaces bs in if is_space b then rest else b ∷ bs

-- The bytes in front of the first that is one of the kind, and those behind them.
unfoldable pub take_until : (ℕ → Bool) → List ℕ → List ℕ × List ℕ
take_until stops [] = ([], [])
take_until stops (b ∷ bs) =
    let rest = take_until stops bs in if stops b then ([], b ∷ bs) else (b ∷ rest.0, rest.1)

unfoldable pub number_of : ℕ → List ℕ → ℕ
number_of n [] = n
number_of n (b ∷ bs) = number_of (n * 10 + (b - 48)) bs

-- A long, as the unsigned long that portno is; a number that is too great is the greatest long.
unfoldable pub long_of : Bool → ℕ → ℕ
long_of negative n =
    if negative
    then (if n == 0 then 0 else (if ltb n (2 ^ 63) then 2 ^ 64 - n else 2 ^ 63))
    else (if ltb n (2 ^ 63) then n else 2 ^ 63 - 1)

unfoldable pub scan_digits : Bool → List ℕ → Option ℕ × List ℕ
unfolding is_digit take_until number_of long_of
scan_digits negative bytes =
    let (digits, rest) = take_until (λ b. not (is_digit b)) bytes in
    (if length digits == 0 then none else some (long_of negative (number_of 0 digits)), rest)

-- `%ld` behind the blanks: none if there is no number, of which a sign is taken off all the same.
unfoldable pub scan_sign : List ℕ → Option ℕ × List ℕ
unfolding scan_digits
scan_sign [] = (none, [])
scan_sign (b ∷ bs) =
    if b == 45
    then scan_digits true bs
    else (if b == 43 then scan_digits false bs else scan_digits false (b ∷ bs))

unfoldable pub port_of : ℕ → Option ℕ → ℕ
port_of unset none = unset
port_of unset (some n) = n

unfoldable pub add_member : GroupMem → Option (List GroupMem) → Option (List GroupMem)
add_member g none = none
add_member g (some ms) = some (g ∷ ms)

-- The loop, with so many members of the array left: none if it writes behind the array, or a host name
-- of more bytes than its field has. A member without a number keeps the port that the array held.
unfoldable pub read_members : (ℕ → ℕ) → ℕ → List ℕ → Option (List GroupMem)
unfolding is_space skip_spaces take_until scan_sign port_of add_member
read_members unset zero bytes = if length (skip_spaces bytes) == 0 then some [] else none
read_members unset (suc left) bytes =
    let (word, rest) = take_until is_space (skip_spaces bytes) in
    let (found, next) = scan_sign (skip_spaces rest) in
    let others = read_members unset left next in
    if length word == 0
    then some []
    else (if ltb (length word) 32
        then add_member (record { hostname = word; portno = port_of (unset left) found }) others
        else none)

unfoldable pub is_dash : List ℕ → Bool
is_dash [] = false
is_dash (b ∷ bs) = b == 45

-- The file of that name, or the standard input for a name that begins with '-'. The first option is
-- none where the file does not open.
unfoldable pub read_group_list_file :
    (ℕ → ℕ) → List ℕ → (List ℕ → Option (List ℕ)) → List ℕ → Option (Option (List GroupMem))
unfolding read_members is_dash
read_group_list_file unset name open_file input =
    if is_dash name then some (read_members unset max_nodes input) else elim (open_file name) [
      | none ↦ none
      | some text ↦ some (read_members unset max_nodes text)
    ]

-- ===== src/Cmd/Delivery.antt =====
-- The texts and the numbers in the packets of transaction_management/cmd.c.
use distributed_system.Base.{
  ℕ, suc, ◌%◌, ◌^◌, ◌<◌, ◌≡◌, refl, ap, ◌∙◌, ◌≢◌, false, Option, none, some, List, [], ◌∷◌, arith,
  ◌==◌, if◌then◌else◌, length, All,
}
use distributed_system.Cmd.Program.{copy_text, str_to_uint}
use distributed_system.Worker.Command.{c_string}

pub length-copy_text : (cs bs : List ℕ) → length (copy_text cs bs) ≡ length bs
unfolding copy_text
length-copy_text [] [] = refl
length-copy_text [] (b ∷ bs) = refl
length-copy_text (c ∷ cs) [] = refl
length-copy_text (c ∷ cs) (b ∷ bs) = ap suc (length-copy_text cs bs)

pub c_string-copy_text :
    (cs bs : List ℕ)
    → All (λ c. c ≢ 0) cs
    → length cs < length bs
    → c_string (copy_text cs bs) ≡ some cs
unfolding copy_text c_string
c_string-copy_text cs [] h room = absurd (omega (arith, room))
c_string-copy_text [] (b ∷ bs) h room = ends (c_string bs)
  where
    ends :
        (o : Option (List ℕ))
        → ◌≡◌ {A = Option (List ℕ)}
            (elim o [
              | none ↦ if 0 == 0 then some [] else none
              | some t ↦ if 0 == 0 then some [] else some (0 ∷ t)
            ])
            (some [])
    ends none = refl
    ends (some t) = refl
c_string-copy_text (c ∷ cs) (b ∷ bs) h room =
    let nonzero : (c == 0) ≡ false = ground (arith, h.0) in
    ap
      (λ (o : Option (List ℕ)). elim o [
        | none ↦ if c == 0 then some [] else none
        | some t ↦ if c == 0 then some [] else some (c ∷ t)
      ])
      (c_string-copy_text cs bs h.1 (omega (arith, room)))
    ∙ rw nonzero refl

pub str_to_uint-lt : (strtoul : List ℕ → Option ℕ) (arg : List ℕ) → str_to_uint strtoul arg < 2 ^ 32
unfolding str_to_uint
str_to_uint-lt strtoul arg = go (strtoul arg)
  where
    go : (o : Option ℕ) → elim o [ none ↦ 0 | some n ↦ n % 2 ^ 32 ] < 2 ^ 32
    go none = omega arith
    go (some n) = omega arith

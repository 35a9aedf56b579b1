-- ===== src/Dump/Records.antt =====
-- The loops over the records of a log in dumpObject.c.
use distributed_system.Base.{
  ℕ, zero, suc, ◌+◌, ◌*◌, ◌^◌, ◌≤◌, ◌<◌, ◌≡◌, refl, ap, ◌∙◌, inl, inr, false, Option, none, some,
  List, [], ◌∷◌, ◌++◌, arith, ltb, Bool-cases, length,
}
use distributed_system.Dump.Files.{
  print_records, num_rec, complain_log, dump_file, put, returned, undefined, Dump,
}

-- The texts of all records, in their order.
unfoldable pub print_all : {A : Type 0} → (A → List ℕ) → List A → List ℕ
print_all print [] = []
print_all print (r ∷ rs) = print r ++ print_all print rs

pub print_records-all :
    {A : Type 0} (print : A → List ℕ) (zeros : A) (size mapped offset : ℕ) (rs : List A)
    → offset + length rs * size ≤ mapped
    → print_records print zeros size mapped offset (length rs) rs ≡ some (print_all print rs)
unfolding print_records print_all
print_records-all print zeros size mapped offset [] h = refl
print_records-all print zeros size mapped offset (r ∷ rs) h =
    let room : offset + size + length rs * size ≤ mapped = omega (arith, h) in
    let fits : ltb mapped (offset + size) ≡ false = ground (arith, room) in
    rw (fits, print_records-all print zeros size mapped (offset + size) rs room) refl

pub print_records-none :
    {A : Type 0} (print : A → List ℕ) (zeros : A) (size mapped offset n : ℕ) (rs : List A)
    → offset ≤ mapped
    → mapped < offset + n * size
    → print_records print zeros size mapped offset n rs ≡ none
unfolding print_records
print_records-none print zeros size mapped offset zero rs start h = absurd (omega (arith, start, h))
print_records-none print zeros size mapped offset (suc n) [] start h =
    elim (Bool-cases (ltb mapped (offset + size))) [
      | inl e ↦ rw e refl
      | inr e ↦
          rw
            (
              e,
              print_records-none print zeros size mapped (offset + size) n [] (ground (arith, e))
                  (omega (arith, h)),
            )
            refl
    ]
print_records-none print zeros size mapped offset (suc n) (r ∷ rs) start h =
    elim (Bool-cases (ltb mapped (offset + size))) [
      | inl e ↦ rw e refl
      | inr e ↦
          rw
            (
              e,
              print_records-none print zeros size mapped (offset + size) n rs (ground (arith, e))
                  (omega (arith, h)),
            )
            refl
    ]

pub num_rec-worker : (n : ℕ) → n < 2 ^ 31 → num_rec 104 176 (104 + n * 176) ≡ n
unfolding num_rec
num_rec-worker n h = ground (arith, h)

pub num_rec-manager : (n : ℕ) → n < 2 ^ 31 → num_rec 1520 12 (1520 + n * 12) ≡ n
unfolding num_rec
num_rec-manager n h = ground (arith, h)

dump_file-some :
    (n : ℕ) (complain : ℕ → List ℕ) (content : ℕ → Dump)
    → 1 ≤ n
    → dump_file (some n) complain content ≡ put (complain n) (content n)
unfolding dump_file
dump_file-some zero complain content h = absurd (omega (arith, h))
dump_file-some (suc n) complain content h = refl

complain_log-long : (n : ℕ) → 104 ≤ n → complain_log n ≡ []
unfolding complain_log
complain_log-long n h = ground (arith, h)

put-nil : (d : Dump) → put [] d ≡ d
unfolding put
put-nil (returned code text) = refl
put-nil undefined = refl

-- A log with at least the 104 bytes that it is asked for.
pub dump_file-log :
    (n : ℕ) (size : Option ℕ) (content : ℕ → Dump)
    → size ≡ some n
    → 104 ≤ n
    → dump_file size complain_log content ≡ content n
dump_file-log n size content e h =
    ap (λ s. dump_file s complain_log content) e
    ∙ dump_file-some n complain_log content (omega (arith, h))
    ∙ ap (λ t. put t (content n)) (complain_log-long n h)
    ∙ put-nil (content n)

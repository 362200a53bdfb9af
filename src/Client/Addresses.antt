-- ===== src/Client/Addresses.antt =====
-- src/Client.cpp: how rank 0 sends the addresses of the servers to the other ranks, in one buffer
-- with a slot of 256 bytes for each. An address is the list of its bytes.
use mochi_colza.Base.{
  ℕ, zero, suc, ◌+◌, ◌-◌, ◌*◌, ◌<◌, ◌≤◌, ◌≡◌, ◌≢◌, refl, sym, ap, ◌∙◌, List, [], ◌∷◌, ◌++◌, Option,
  none, some, arith, length, length-append, All, ◌==◌, nat_eq, if◌then◌else◌,
}
use mathlib.Core.List.{append_assoc}
use mathlib.Core.Option
use native.Mathlib.Nat.{suc-add}

abbrev pub Address : Type 0
Address = List ℕ

abbrev pub zeros : ℕ → List ℕ
zeros zero = []
zeros (suc n) = 0 ∷ zeros n

-- The text that starts at a `char*`: the bytes before the first NUL.
unfoldable pub until_nul : List ℕ → Address
until_nul [] = []
until_nul (b ∷ bs) = let rest = until_nul bs in if b == 0 then [] else b ∷ rest

-- Writing bytes at an offset; `none` is a write past the end of the buffer.
unfoldable pub overwrite : ℕ → List ℕ → List ℕ → Option (List ℕ)
overwrite zero [] buffer = some buffer
overwrite zero (b ∷ bs) [] = none
overwrite zero (b ∷ bs) (c ∷ cs) = Option.map (λ cs. b ∷ cs) (overwrite zero bs cs)
overwrite (suc n) bs [] = none
overwrite (suc n) bs (c ∷ cs) = Option.map (λ cs. c ∷ cs) (overwrite n bs cs)

-- strcpy(packed_addresses.data() + i*256, address)
unfoldable pub copy_address : ℕ → Address → List ℕ → Option (List ℕ)
unfolding overwrite until_nul
copy_address i address buffer = overwrite (i * 256) (until_nul address ++ 0 ∷ []) buffer

abbrev pub drop : ℕ → List ℕ → List ℕ
drop zero xs = xs
drop (suc n) [] = []
drop (suc n) (x ∷ xs) = drop n xs

-- The texts at packed_addresses.data() + i*256, ..., for n slots.
unfoldable pub unpack : ℕ → ℕ → List ℕ → List Address
unfolding until_nul
unpack i zero packed_addresses = []
unpack i (suc n) packed_addresses =
    until_nul (drop (i * 256) packed_addresses) ∷ unpack (i + 1) n packed_addresses

-- An address with no NUL in it that fits in a slot with the NUL at its end.
abbrev pub Fits : Address → Type 0
Fits address = All (λ b. b ≢ 0) address × (length address < 256)

abbrev pub slot : Address → List ℕ
slot address = address ++ zeros (256 - length address)

abbrev pub slots : List Address → List ℕ
slots [] = []
slots (a ∷ rest) = slot a ++ slots rest

zeros-add : (m n : ℕ) → zeros (m + n) ≡ zeros m ++ zeros n
zeros-add zero n = ap zeros (omega arith)
zeros-add (suc m) n = ap zeros (suc-add m n) ∙ rw (zeros-add m n)

until_nul_text :
    (address rest : List ℕ) → All (λ b. b ≢ 0) address → until_nul (address ++ 0 ∷ rest) ≡ address
unfolding until_nul
until_nul_text [] rest h = refl
until_nul_text (b ∷ bs) rest h = ground (arith, until_nul_text bs rest h.1)

until_nul_whole : (address : List ℕ) → All (λ b. b ≢ 0) address → until_nul address ≡ address
unfolding until_nul
until_nul_whole [] h = refl
until_nul_whole (b ∷ bs) h = ground (arith, until_nul_whole bs h.1)

until_nul-slot : (a : Address) (rest : List ℕ) → Fits a → until_nul (slot a ++ rest) ≡ a
until_nul-slot a rest (text, short) =
    let room : 256 - length a ≡ suc (255 - length a) = omega arith in
    rw (room, append_assoc a (zeros (suc (255 - length a))) rest)
      (until_nul_text a (zeros (255 - length a) ++ rest) text)

length-zeros : (n : ℕ) → length (zeros n) ≡ n
length-zeros zero = refl
length-zeros (suc n) = rw (length-zeros n)

pub length-slot : (a : Address) → Fits a → length (slot a) ≡ 256
length-slot a (text, short) =
    omega (arith, length-append a (zeros (256 - length a)), length-zeros (256 - length a))

overwrite-zeros :
    (bs : List ℕ) (n : ℕ)
    → length bs ≤ n
    → overwrite 0 bs (zeros n) ≡ some (bs ++ zeros (n - length bs))
unfolding overwrite
overwrite-zeros [] n h = ap (λ (m : ℕ). some (zeros m)) (omega arith)
overwrite-zeros (b ∷ bs) zero h = absurd (omega arith)
overwrite-zeros (b ∷ bs) (suc n) h =
    let same : suc n - suc (length bs) ≡ n - length bs = omega arith in
    rw (overwrite-zeros bs n (omega arith), same)

copied-slot :
    (a : Address) (k : ℕ)
    → Fits a
    → (a ++ 0 ∷ []) ++ zeros (256 + k - length (a ++ 0 ∷ [])) ≡ slot a ++ zeros k
copied-slot a k (text, short) =
    let room : 256 + k - length (a ++ 0 ∷ []) ≡ (255 - length a) + k =
      omega (arith, length-append a (0 ∷ [])) in
    let tail : 256 - length a ≡ suc (255 - length a) = omega arith in
    ap (λ (m : ℕ). (a ++ 0 ∷ []) ++ zeros m) room
    ∙ append_assoc a (0 ∷ []) (zeros ((255 - length a) + k))
    ∙ ap (λ (zs : List ℕ). a ++ 0 ∷ zs) (zeros-add (255 - length a) k)
    ∙ sym (append_assoc a (zeros (suc (255 - length a))) (zeros k))
    ∙ ap (λ (m : ℕ). (a ++ zeros m) ++ zeros k) (sym tail)

overwrite-append :
    (done bs rest : List ℕ) (out : List ℕ)
    → overwrite 0 bs rest ≡ some out
    → overwrite (length done) bs (done ++ rest) ≡ some (done ++ out)
unfolding overwrite
overwrite-append [] bs rest out e = e
overwrite-append (c ∷ done) bs rest out e = rw (overwrite-append done bs rest out e)

drop-append : (done rest : List ℕ) → drop (length done) (done ++ rest) ≡ rest
drop-append [] rest = refl
drop-append (c ∷ done) rest = drop-append done rest

-- Writing one address into a buffer whose first slots are written.
pub copy_address-slots :
    (done : List ℕ) (i k : ℕ) (a : Address)
    → length done ≡ i * 256
    → Fits a
    → copy_address i a (done ++ zeros (256 + k)) ≡ some (done ++ (slot a ++ zeros k))
unfolding copy_address
copy_address-slots done i k a at fits =
    rw (until_nul_whole a fits.0, sym at)
      (overwrite-append done (a ++ 0 ∷ []) (zeros (256 + k)) (slot a ++ zeros k) (
        overwrite-zeros (a ++ 0 ∷ []) (256 + k) (omega (arith, length-append a (0 ∷ []), fits.1))
        ∙ ap (λ (zs : List ℕ). some zs) (copied-slot a k fits)))

-- Reading the slots gives the addresses that were written into them.
pub unpack-slots :
    (done : List ℕ) (i : ℕ) (addresses : List Address)
    → length done ≡ i * 256
    → All Fits addresses
    → unpack i (length addresses) (done ++ slots addresses) ≡ addresses
unfolding unpack
unpack-slots done i [] at fits = refl
unpack-slots done i (a ∷ rest) at (fits, all_fit) =
    let here : until_nul (drop (i * 256) (done ++ (slot a ++ slots rest))) ≡ a =
      rw (sym at, drop-append done (slot a ++ slots rest)) (until_nul-slot a (slots rest) fits) in
    let there : unpack (i + 1) (length rest) (done ++ (slot a ++ slots rest)) ≡ rest =
      rw (sym (append_assoc done (slot a) (slots rest))) (
        unpack-slots (done ++ slot a) (i + 1) rest
          (omega (arith, length-append done (slot a), length-slot a fits)) all_fit) in
    rw (here, there)

-- ===== src/Mark/Keeps.antt =====
-- What a marking pass leaves as it was: the operations, and the metadata of other names.
use bin2llvm.Base.{Bool, true, false, not, ◌&&◌, List, [], ◌∷◌, ◌++◌, ◌≡◌, refl, arith, All, map}
use bin2llvm.Hex.{Text}
use bin2llvm.Ir.{Kind, kind_eq, Inst}
use bin2llvm.Ir.Meta.{
  get_metadata, set_metadata, has_metadata, get_metadata-set_metadata, get_hex_metadata_from_ins,
}

abbrev pub avoids : Kind → List Kind → Bool
avoids k [] = true
avoids k (j ∷ js) = not (kind_eq j k) && avoids k js

-- `j` is `i` with other metadata, of the names `ks` alone.
pub record Keeps (ks : List Kind) (i j : Inst) : Type 0 where
  pub same_op : j.op ≡ i.op
  pub same_meta : (k : Kind) → avoids k ks ≡ true → get_metadata j k ≡ get_metadata i k

pub Keeps-refl : (ks : List Kind) (i : Inst) → Keeps ks i i
Keeps-refl ks i = record { same_op = refl; same_meta = λ k h. refl }

pub Keeps-set :
    (ks : List Kind) (i j : Inst) (n : Kind) (t : Text)
    → ((k : Kind) → avoids k ks ≡ true → kind_eq n k ≡ false)
    → Keeps ks i j
    → Keeps ks i (set_metadata j n t)
unfolding set_metadata
Keeps-set ks i j n t apart h = record {
  same_op = h.same_op;
  same_meta = λ k a. ground (arith, get_metadata-set_metadata j n k t, apart k a, h.same_meta k a);
}

pub has_metadata-Keeps :
    (ks : List Kind) (i j : Inst) (k : Kind)
    → Keeps ks i j
    → avoids k ks ≡ true
    → has_metadata j k ≡ has_metadata i k
unfolding has_metadata
has_metadata-Keeps ks i j k h a = ground (arith, h.same_meta k a)

pub get_hex-Keeps :
    (ks : List Kind) (i j : Inst) (k : Kind)
    → Keeps ks i j
    → avoids k ks ≡ true
    → get_hex_metadata_from_ins j k ≡ get_hex_metadata_from_ins i k
unfolding get_hex_metadata_from_ins
get_hex-Keeps ks i j k h a = ground (arith, h.same_meta k a)

-- The instructions of two lists correspond one to one.
pub data All2 {κ} (R : Inst → Inst → Type κ) : List Inst → List Inst → Type κ where
  nil : All2 R [] []
  cons : {x y : Inst} {xs ys : List Inst} → R x y → All2 R xs ys → All2 R (x ∷ xs) (y ∷ ys)

pub All2-append {κ} :
    (R : Inst → Inst → Type κ) {xs ys us vs : List Inst}
    → All2 R xs ys
    → All2 R us vs
    → All2 R (xs ++ us) (ys ++ vs)
All2-append R nil q = q
All2-append R (cons h p) q = cons h (All2-append R p q)

pub All2-map {κ} :
    (R : Inst → Inst → Type κ) (f : Inst → Inst) (xs : List Inst)
    → ((i : Inst) → R i (f i))
    → All2 R xs (map f xs)
All2-map R f [] h = nil
All2-map R f (x ∷ xs) h = cons (h x) (All2-map R f xs h)

-- A property passes from one list to the other.
pub All2-All {κ} :
    (R : Inst → Inst → Type κ) (P Q : Inst → Type 0) {xs ys : List Inst}
    → ((x y : Inst) → R x y → P x → Q y)
    → All2 R xs ys
    → All P xs
    → All Q ys
All2-All R P Q f nil h = tt
All2-All R P Q f (cons {x} {y} r p) h = (f x y r h.0, All2-All R P Q f p h.1)

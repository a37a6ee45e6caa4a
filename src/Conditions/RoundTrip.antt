-- ===== src/Conditions/RoundTrip.antt =====
-- The conditions of a player that are saved are loaded (src/condition.cpp, src/iologindata.cpp).
use baiak_fonticak.Conditions.Loading.{expect, create_from, unserialize, load_conditions}
use baiak_fonticak.Base.{ℕ, zero, suc, ◌≤◌, ◌<◌, ◌≡◌, refl, sym, ap, ◌∙◌, inl, inr, true}
use baiak_fonticak.Base.{false, some, List, [], ◌∷◌, ◌++◌, map, append-nil, append_assoc}
use baiak_fonticak.Base.{arith, length, length-append, All, ◌==◌, if◌then◌else◌, Bool-cases}
use baiak_fonticak.Conditions.{Condition, minus_one, is_persistent}
use baiak_fonticak.Conditions.Codes.{end_attr}
use baiak_fonticak.Base.Words.{le_bytes}
use baiak_fonticak.Network.PropStream.{write}
use mathlib.Core.List.{reverse, reverse-cons}
use baiak_fonticak.Conditions.Writing.{Written, base_fields, kind_fields, serialize}
use baiak_fonticak.Conditions.Writing.{save_conditions, write_fields}
use baiak_fonticak.Conditions.Creating.{new_condition}
use baiak_fonticak.Conditions.Fields.{onto, write_fields-onto, unserialize-onto}
use baiak_fonticak.Conditions.Restoring.{blank, restored}
use baiak_fonticak.Conditions.Single.{IsSound, absorb_kind, create_from-base}
use baiak_fonticak.Conditions.Single.{base-IsWritable}

persistent-alive : (c : Condition) → is_persistent c ≡ true → (c.ticks == minus_one) ≡ false
unfolding is_persistent
persistent-alive c h = ground (arith, h)

length-onto : (fs : List Written) (rest : List ℕ) → length fs ≤ length (onto fs rest)
unfolding onto
length-onto [] rest = omega arith
length-onto (f ∷ fs) rest =
    omega (arith, length-onto fs rest, length-append (le_bytes f.size f.value) (onto fs rest))

-- The bytes of a condition with its end mark.
abbrev bytes_of : Condition → List ℕ → List ℕ
bytes_of c rest = onto (base_fields c) (onto (kind_fields c.kind) (end_attr ∷ rest))

serialized :
    (c : Condition) (buffer rest : List ℕ)
    → IsSound c
    → write 1 end_attr (serialize c buffer) ++ rest ≡ buffer ++ bytes_of c rest
unfolding write serialize le_bytes
serialized c buffer rest h =
    append_assoc (serialize c buffer) (end_attr ∷ []) rest
    ∙ write_fields-onto (kind_fields c.kind) (write_fields (base_fields c) buffer) (end_attr ∷ rest)
        h.fields_fit
    ∙ write_fields-onto (base_fields c) buffer (onto (kind_fields c.kind) (end_attr ∷ rest))
        (base-IsWritable c h)

unserialized :
    (now : ℕ) (c : Condition) (rest : List ℕ)
    → IsSound c
    → is_persistent c ≡ true
    → unserialize now
        (suc (length (onto (kind_fields c.kind) (end_attr ∷ rest))))
        (new_condition c.id c.type c.ticks c.is_buff c.sub_id c.aggressive (blank c.kind))
        (onto (kind_fields c.kind) (end_attr ∷ rest))
      ≡ (some (restored now c), rest)
unfolding restored
unserialized now c rest h lasts =
    unserialize-onto now _ (kind_fields c.kind) _ _ rest
      (absorb_kind now c.id c.type c.sub_id c.is_buff c.aggressive c.ticks
        (persistent-alive c lasts) c.kind h.kind_sound)
      h.fields_fit (omega (arith, length-onto (kind_fields c.kind) (end_attr ∷ rest)))

load_one :
    (now fuel : ℕ) (c : Condition) (rest : List ℕ) (stored : List Condition)
    → IsSound c
    → is_persistent c ≡ true
    → load_conditions now (suc fuel) (bytes_of c rest) stored
      ≡ load_conditions now fuel rest (restored now c ∷ stored)
unfolding load_conditions
load_one now fuel c rest stored h lasts =
    let made = create_from-base c (onto (kind_fields c.kind) (end_attr ∷ rest)) h in
    let read_it = unserialized now c rest h lasts in ground (arith, made, read_it)

-- The conditions that are saved.
unfoldable pub persistent : List Condition → List Condition
persistent [] = []
persistent (c ∷ cs) = let others = persistent cs in if is_persistent c then c ∷ others else others

-- The bytes of all saved conditions.
unfoldable saved : List Condition → List ℕ
saved [] = []
saved (c ∷ cs) = let others = saved cs in if is_persistent c then bytes_of c others else others

save_conditions-saved :
    (cs : List Condition) (buffer : List ℕ)
    → All IsSound cs
    → save_conditions cs buffer ≡ buffer ++ saved cs
unfolding save_conditions saved
save_conditions-saved [] buffer h = sym (append-nil buffer)
save_conditions-saved (c ∷ cs) buffer (h, hs) = elim (Bool-cases (is_persistent c)) [
  | inl lasts ↦ rw lasts (
      save_conditions-saved cs (write 1 end_attr (serialize c buffer)) hs
      ∙ serialized c buffer (saved cs) h)
  | inr passes ↦ rw passes (save_conditions-saved cs buffer hs)
]

prepend :
    (c : Condition) (cs stored : List Condition)
    → reverse cs ++ c ∷ stored ≡ reverse (c ∷ cs) ++ stored
prepend c cs stored =
    sym (append_assoc (reverse cs) (c ∷ []) stored)
    ∙ ap (λ xs. xs ++ stored) (sym (reverse-cons c cs))

load_saved :
    (now fuel : ℕ) (cs stored : List Condition)
    → All IsSound cs
    → length cs < fuel
    → load_conditions now fuel (saved cs) stored
      ≡ some (reverse (map (restored now) (persistent cs)) ++ stored)
unfolding saved persistent
load_saved now zero cs stored h enough = absurd (omega (arith, enough))
load_saved now (suc fuel) [] stored h enough = unfold load_conditions create_from expect in refl
load_saved now (suc fuel) (c ∷ cs) stored (h, hs) enough = elim (Bool-cases (is_persistent c)) [
  | inl lasts ↦ rw lasts (
      load_one now fuel c (saved cs) stored h lasts
      ∙ load_saved now fuel cs (restored now c ∷ stored) hs (omega (arith, enough))
      ∙ ap some (prepend (restored now c) (map (restored now) (persistent cs)) stored))
  | inr passes ↦ rw passes (load_saved now (suc fuel) cs stored hs (omega (arith, enough)))
]

-- The conditions of a player are saved and loaded again: loading gives exactly the persistent
-- ones, in the opposite order, each with all the attributes that its class writes and the other
-- fields as they are created. Fuel above the number of conditions is enough. Conditions are to
-- fit their fields, the damages to last less than 2^31 milliseconds.
pub load-save :
    (now fuel : ℕ) (cs : List Condition)
    → All IsSound cs
    → length cs < fuel
    → load_conditions now fuel (save_conditions cs []) []
      ≡ some (reverse (map (restored now) (persistent cs)))
load-save now fuel cs h enough =
    ap (λ bytes. load_conditions now fuel bytes []) (save_conditions-saved cs [] h)
    ∙ load_saved now fuel cs [] h enough
    ∙ ap some (append-nil (reverse (map (restored now) (persistent cs))))

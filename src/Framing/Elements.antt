-- ===== src/Framing/Elements.antt =====
-- The structured-data loops of crates/core/src/framing.rs accept the grammar, and nothing else.
use syslog_dtls_agent.Prelude.{
  ℕ, zero, suc, ◌≤◌, ◌<◌, ◌≡◌, refl, sym, ap, subst, ◌∙◌, inl, inr, true, false, ◌||◌, some, List,
  [], ◌∷◌, ◌++◌, ◌==◌, length, length-append, take, drop, take-append, drop-append, All, Bytes,
  take-append-drop, Bool-cases, Option-cases, arith,
}
use syslog_dtls_agent.Framing.Text.{starts_with_byte}
use syslog_dtls_agent.Framing.Data.{
  sd_name, sd_param, sd_params, contains_id, name_end, sd_elements,
}
use syslog_dtls_agent.Framing.Grammar.{
  quote, IsNameByte, IsName, IsParam, IsParams, finished, param, IsElements, element,
}
use syslog_dtls_agent.Framing.Scan.{
  position-append, sd_name-IsName, sd_param-IsParam, IsParam-sd_param,
}

-- A parameter takes at least one byte.
IsParam-length : (s after : Bytes) → IsParam s after → length after < length s
IsParam-length s after q =
    let l1 : length s ≡ length (q.name ++ b'=' ∷ quote ∷ (q.value ++ quote ∷ after)) =
      ap length q.text in
    let l2 = length-append q.name (b'=' ∷ quote ∷ (q.value ++ quote ∷ after)) in
    let l3 = length-append q.value (quote ∷ after) in omega (arith, l1, l2, l3)

pub sd_params-IsParams :
    (fuel : ℕ) (rest s : Bytes)
    → starts_with_byte b' ' rest ≡ false
    → IsParams rest s
    → length s < fuel
    → sd_params fuel s ≡ some rest
unfolding sd_params
sd_params-IsParams zero rest s n p f = absurd (omega (arith, f))
sd_params-IsParams (suc fuel) rest s n (finished e) f = rw (e, sd_params, n) (ap some e)
sd_params-IsParams (suc fuel) rest s n (param {after} {tail} e p ps) f =
    let shorter = IsParam-length tail after p in
    let length_is : length s ≡ suc (length tail) = ap length e in
    let round : sd_params (suc fuel) (b' ' ∷ tail) ≡ some rest =
      rw (sd_params, sd_param-IsParam tail after p)
        (sd_params-IsParams fuel rest after n ps (omega (arith, f, shorter, length_is))) in
    ap (sd_params (suc fuel)) e ∙ round

pub cons_of_start : (c : ℕ) (s : Bytes) → starts_with_byte c s ≡ true → s ≡ c ∷ drop 1 s
cons_of_start c [] h = absurd (ground arith)
cons_of_start c (b ∷ s) h = ap (λ k. k ∷ s) (ground arith)

pub IsParams-sd_params :
    (fuel : ℕ) (rest s : Bytes)
    → sd_params fuel s ≡ some rest
    → IsParams rest s × (starts_with_byte b' ' rest ≡ false)
unfolding sd_params
IsParams-sd_params zero rest s h = absurd (ground arith)
IsParams-sd_params (suc fuel) rest s h = elim (Bool-cases (starts_with_byte b' ' s)) [
  | inr e ↦ (finished (ground arith), ground arith)
  | inl e ↦ elim (Option-cases (sd_param (drop 1 s))) [
    | inl f ↦ absurd (ground arith)
    | inr (after, f) ↦
        (let others = IsParams-sd_params fuel rest after (ground arith) in
          (param (cons_of_start b' ' s e) (IsParam-sd_param (drop 1 s) after f) others.0, others.1))
  ]
]

-- The name that an element starts with ends where its parameters begin.
name_goes_on : (s : Bytes) → All IsNameByte s → All (λ b. (b == b' ' || b == b']') ≡ false) s
name_goes_on [] a = tt
name_goes_on (b ∷ s) a = (ground arith, name_goes_on s a.1)

params_start :
    (rest params : Bytes)
    → IsParams (b']' ∷ rest) params
    → (c : ℕ) × (tail : Bytes) × (params ≡ c ∷ tail) × ((c == b' ' || c == b']') ≡ true)
params_start rest params (finished e) = (b']', rest, e, refl)
params_start rest params (param {after} {tail} e p ps) = (b' ', tail, e, refl)

name_end-append :
    (id params rest : Bytes)
    → IsName id
    → IsParams (b']' ∷ rest) params
    → name_end (id ++ params) ≡ length id
unfolding name_end
name_end-append id params rest h p =
    let (c, tail, e, stops) = params_start rest params p in
    rw
      (
        e,
        name_end,
        position-append (λ b. b == b' ' || b == b']') id tail c (name_goes_on id h.printable) stops,
      )
      refl

IsParams-length : (rest s : Bytes) → IsParams rest s → length rest ≤ length s
IsParams-length rest s (finished e) =
    let l : length s ≡ length rest = ap length e in omega (arith, l)
IsParams-length rest s (param {after} {tail} e p ps) =
    let l : length s ≡ suc (length tail) = ap length e in
    omega (arith, l, IsParam-length tail after p, IsParams-length rest after ps)

pub sd_elements-IsElements :
    (fuel : ℕ) (rest : Bytes) (seen ids : List Bytes) (s : Bytes)
    → starts_with_byte b'[' rest ≡ false
    → IsElements rest seen ids s
    → length s < fuel
    → sd_elements fuel seen s ≡ some (ids, rest)
unfolding sd_elements contains_id
sd_elements-IsElements zero rest seen ids s n p f = absurd (omega (arith, f))
sd_elements-IsElements (suc fuel) rest seen ids s n (finished e d) f =
    rw (e, d, sd_elements, n) (ap (λ r. some (seen, r)) e)
sd_elements-IsElements (suc fuel) rest seen ids s n (element {params} {after} id e name fresh ps es)
      f =
    let length_is : length s ≡ suc (length (id ++ params)) = ap length e in
    let split = length-append id params in
    let less = IsParams-length (b']' ∷ after) params ps in
    let ends = name_end-append id params after name ps in
    let scanned =
      sd_params-IsParams (suc (length (id ++ params))) (b']' ∷ after) params refl ps
        (omega (arith, split)) in
    let others =
      sd_elements-IsElements fuel rest (id ∷ seen) ids after n es
        (omega (arith, f, length_is, split, less)) in
    let round : sd_elements (suc fuel) seen (b'[' ∷ (id ++ params)) ≡ some (ids, rest) =
      rw
        (
          sd_elements,
          ends,
          take-append id params,
          drop-append id params,
          (sd_name-IsName id).1 name,
          fresh,
          scanned,
        )
        (rw (ends, take-append id params) others) in
    ap (sd_elements (suc fuel) seen) e ∙ round

-- One round of the loop, read backwards.
element_of :
    (fuel : ℕ) (rest : Bytes) (seen ids : List Bytes) (s after : Bytes)
    → sd_elements (suc fuel) seen s ≡ some (ids, rest)
    → starts_with_byte b'[' s ≡ true
    → sd_params (suc (length (drop 1 s))) (drop (name_end (drop 1 s)) (drop 1 s)) ≡ some after
    → (sd_name (take (name_end (drop 1 s)) (drop 1 s)) ≡ true)
      × (contains_id (take (name_end (drop 1 s)) (drop 1 s)) seen ≡ false)
      × (starts_with_byte b']' after ≡ true)
      × (sd_elements fuel (take (name_end (drop 1 s)) (drop 1 s) ∷ seen) (drop 1 after)
          ≡ some (ids, rest))
unfolding sd_elements
element_of fuel rest seen ids s after h e f = ground arith

params_of :
    (fuel : ℕ) (rest : Bytes) (seen ids : List Bytes) (s : Bytes)
    → sd_elements (suc fuel) seen s ≡ some (ids, rest)
    → starts_with_byte b'[' s ≡ true
    → (after : Bytes) × (sd_params (suc (length (drop 1 s))) (drop (name_end (drop 1 s)) (drop 1 s))
        ≡ some after)
unfolding sd_elements
params_of fuel rest seen ids s h e = ground arith

pub IsElements-sd_elements :
    (fuel : ℕ) (rest : Bytes) (seen ids : List Bytes) (s : Bytes)
    → sd_elements fuel seen s ≡ some (ids, rest)
    → IsElements rest seen ids s
unfolding sd_elements contains_id
IsElements-sd_elements zero rest seen ids s h = absurd (ground arith)
IsElements-sd_elements (suc fuel) rest seen ids s h = elim (Bool-cases (starts_with_byte b'[' s)) [
  | inr e ↦ finished (ground arith) (ground arith)
  | inl e ↦
      (let (after, f) = params_of fuel rest seen ids s h e in
        let round = element_of fuel rest seen ids s after h e f in
        let id = take (name_end (drop 1 s)) (drop 1 s) in
        let params = drop (name_end (drop 1 s)) (drop 1 s) in
        let closed = cons_of_start b']' after round.2 in
        let others = IsElements-sd_elements fuel rest (id ∷ seen) ids (drop 1 after) round.3 in
        let ps = (IsParams-sd_params (suc (length (drop 1 s))) after params f).0 in
        element id
          (cons_of_start b'[' s e
            ∙ ap (λ t. b'[' ∷ t) (sym (take-append-drop (name_end (drop 1 s)) (drop 1 s))))
          ((sd_name-IsName id).0 round.0) round.1 (subst (λ a. IsParams a params) closed ps) others)
]

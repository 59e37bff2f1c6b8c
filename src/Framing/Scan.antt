-- ===== src/Framing/Scan.antt =====
-- The scanning loops of crates/core/src/framing.rs find the parts that the grammar names, and no other.
use native.Mathlib.Decide.{ℕ_discrete}
use native.Mathlib.Nat.{zero-add}
use native.Mathlib.Numerals.{add-one}
use syslog_dtls_agent.Prelude.{
  ℕ, suc, ◌+◌, ◌≡◌, ◌≢◌, refl, sym, ap, ap₂, ◌∙◌, ◌↔◌, inl, inr, Bool, true, false, not, ◌&&◌, none,
  some, [], ◌∷◌, ◌++◌, ◌==◌, within, length, take, drop, take-append, drop-append_cons,
  drop-append_cons_cons, get_elem?-append_cons, get_elem?, all, All, Bytes, Bool-cases,
  Option-cases, arith,
}
use syslog_dtls_agent.Framing.Text.{position, is_utf8}
use syslog_dtls_agent.Framing.Data.{
  sd_name, value_end, sd_value, some_byte_is, sd_param, is_name_stop, is_escapable,
}
use syslog_dtls_agent.Framing.Grammar.{
  quote, backslash, IsNameByte, IsName, IsEscapable, IsValue, empty, plain, escaped, lone, IsParam,
}

-- Where a scan stopped: what it passed, the byte that it found, and what follows.
pub record IsSplit (p : ℕ → Bool) (s : Bytes) (n : ℕ) : Type 0 where
  pub before : Bytes
  pub found : ℕ
  pub after : Bytes
  pub text : s ≡ before ++ found ∷ after
  pub long : length before ≡ n
  pub hit : p found ≡ true
  pub missed : All (λ b. p b ≡ false) before

pub position-IsSplit : (p : ℕ → Bool) (s : Bytes) (n : ℕ) → position p s ≡ some n → IsSplit p s n
unfolding position
position-IsSplit p [] n h = absurd (ground arith)
position-IsSplit p (b ∷ s) n h = elim (Bool-cases (p b)) [
  | inl e ↦ record {
    before = [];
    found = b;
    after = s;
    text = refl;
    long = ground arith;
    hit = e;
    missed = tt;
  }
  | inr e ↦ elim (Option-cases (position p s)) [
    | inl f ↦ absurd (ground arith)
    | inr (k, f) ↦
        (let rest = position-IsSplit p s k f in
          record {
            before = b ∷ rest.before;
            found = rest.found;
            after = rest.after;
            text = ap (λ l. b ∷ l) rest.text;
            long = ground (arith, rest.long);
            hit = rest.hit;
            missed = (e, rest.missed);
          })
  ]
]

pub position-append :
    (p : ℕ → Bool) (xs ys : Bytes) (b : ℕ)
    → All (λ x. p x ≡ false) xs
    → p b ≡ true
    → position p (xs ++ b ∷ ys) ≡ some (length xs)
unfolding position
position-append p [] ys b a h = rw h
position-append p (x ∷ xs) ys b a h = rw (a.0, position-append p xs ys b a.1 h)

-- `sd_name` accepts the names of the grammar.
name_bytes :
    (s : Bytes) → (all (λ b. within 33 126 b && not (is_name_stop b)) s ≡ true) ↔ All IsNameByte s
name_bytes [] = (λ h. tt, λ h. refl)
name_bytes (b ∷ s) =
    (λ h. ground (arith, (name_bytes s).0), λ h. ground (arith, (name_bytes s).1 h.1))

pub sd_name-IsName : (s : Bytes) → (sd_name s ≡ true) ↔ IsName s
unfolding sd_name
sd_name-IsName s =
    (λ h. ground (arith, (name_bytes s).0), λ h. ground (arith, (name_bytes s).1 h.printable))

-- The loop over a quoted value ends at its closing quote.
pub value_end-append :
    (i : ℕ) (post : Bytes) {v : Bytes}
    → IsValue v
    → value_end i (v ++ quote ∷ post) ≡ some (i + length v)
unfolding value_end
value_end-append i [] empty = ground arith
value_end-append i (c ∷ post) empty = ground arith
value_end-append i post (plain {v = []} x y z h) = ground (arith, value_end-append (i + 1) post h)
value_end-append i post (plain {v = c ∷ v} x y z h) =
    ground (arith, value_end-append (i + 1) post h)
value_end-append i post (escaped e c h) = ground (arith, value_end-append (i + 2) post h)
value_end-append i post (lone e c h) = ground (arith, value_end-append (i + 1) post h)

pub record IsQuoted (i : ℕ) (s : Bytes) (n : ℕ) : Type 0 where
  pub value : Bytes
  pub after : Bytes
  pub text : s ≡ value ++ quote ∷ after
  pub ends : n ≡ i + length value
  pub escaped_value : IsValue value

lone-IsValue :
    (b c : ℕ) (s value after : Bytes)
    → b ≡ backslash
    → ¬ IsEscapable c
    → c ∷ s ≡ value ++ quote ∷ after
    → IsValue value
    → IsValue (b ∷ value)
lone-IsValue b c s [] after e h t v = absurd (h (inl (ground arith)))
lone-IsValue b c s (d ∷ value) after e h t v = lone e (λ k. h (ground arith)) v

module _ (i b c : ℕ) (s : Bytes) (n : ℕ) where
  IsQuoted-next :
      b ≢ quote
      → b ≢ b']'
      → (b ≡ backslash → ¬ IsEscapable c)
      → IsQuoted (i + 1) (c ∷ s) n
      → IsQuoted i (b ∷ c ∷ s) n
  IsQuoted-next x y z q = record {
    value = b ∷ q.value;
    after = q.after;
    text = ap (λ l. b ∷ l) q.text;
    ends = omega (arith, q.ends);
    escaped_value = elim (ℕ_discrete b backslash) [
      | yes e ↦ lone-IsValue b c s q.value q.after e (z e) q.text q.escaped_value
      | no e ↦ plain x e y q.escaped_value
    ];
  }

  IsQuoted-skip : b ≡ backslash → IsEscapable c → IsQuoted (i + 2) s n → IsQuoted i (b ∷ c ∷ s) n
  IsQuoted-skip e h q = record {
    value = b ∷ c ∷ q.value;
    after = q.after;
    text = ap (λ l. b ∷ c ∷ l) q.text;
    ends = omega (arith, q.ends);
    escaped_value = escaped e h q.escaped_value;
  }

IsQuoted-here : (i b : ℕ) (s : Bytes) (n : ℕ) → b ≡ quote → i ≡ n → IsQuoted i (b ∷ s) n
IsQuoted-here i b s n e f = record {
  value = [];
  after = s;
  text = ap (λ k. k ∷ s) e;
  ends = omega arith;
  escaped_value = empty;
}

pub value_end-IsQuoted : (i : ℕ) (s : Bytes) (n : ℕ) → value_end i s ≡ some n → IsQuoted i s n
unfolding value_end
value_end-IsQuoted i [] n h = absurd (ground arith)
value_end-IsQuoted i (b ∷ []) n h = IsQuoted-here i b [] n (ground arith) (ground arith)
value_end-IsQuoted i (b ∷ c ∷ s) n h = elim (Bool-cases (b == 0x22)) [
  | inl q ↦ IsQuoted-here i b (c ∷ s) n (ground arith) (ground arith)
  | inr x ↦ elim (Bool-cases (b == 0x5c && is_escapable c)) [
    | inl e ↦
        IsQuoted-skip i b c s n (ground arith) (ground arith)
          (value_end-IsQuoted (i + 2) s n (ground arith))
    | inr e ↦
        IsQuoted-next i b c s n (ground arith) (ground arith) (λ k. λ m. ground arith)
          (value_end-IsQuoted (i + 1) (c ∷ s) n (ground arith))
  ]
]

pub sd_value-append :
    (v after : Bytes) → IsValue v → is_utf8 v ≡ true → sd_value (v ++ quote ∷ after) ≡ some after
unfolding sd_value
sd_value-append v after h u =
    rw (value_end-append 0 after h, sd_value)
      (rw (zero-add, take-append v (quote ∷ after), u, drop-append_cons v after quote))

sd_value_sound :
    (s after : Bytes)
    → sd_value s ≡ some after
    → (v : Bytes) × (s ≡ v ++ quote ∷ after) × IsValue v × (is_utf8 v ≡ true)
unfolding sd_value
sd_value_sound s after h = elim (Option-cases (value_end 0 s)) [
  | inl e ↦ absurd (ground arith)
  | inr (n, e) ↦
      (let q = value_end-IsQuoted 0 s n e in
        let n_is : n ≡ length q.value = omega (arith, q.ends) in
        let taken : take n s ≡ q.value =
          rw (n_is, q.text) (take-append q.value (quote ∷ q.after)) in
        let left : drop (n + 1) s ≡ q.after =
          rw (n_is, q.text) (drop-append_cons q.value q.after quote) in
        (
          q.value,
          ground (arith, taken, left, q.text),
          q.escaped_value,
          ground (arith, taken, left),
        ))
]

get_beyond : (xs : Bytes) (x : ℕ) → get_elem? (xs ++ x ∷ []) (suc (length xs)) ≡ none
get_beyond [] x = refl
get_beyond (y ∷ xs) x = get_beyond xs x

get_end : (xs : Bytes) (x : ℕ) → get_elem? (xs ++ x ∷ []) (length xs + 1) ≡ none
get_end xs x = ap (get_elem? (xs ++ x ∷ [])) (add-one (length xs)) ∙ get_beyond xs x

name_passes : (s : Bytes) → All IsNameByte s → All (λ b. (b == b'=') ≡ false) s
name_passes [] a = tt
name_passes (b ∷ s) a = (ground arith, name_passes s a.1)

sd_param-quoted :
    (name tail : Bytes) → IsName name → sd_param (name ++ b'=' ∷ quote ∷ tail) ≡ sd_value tail
unfolding sd_param
sd_param-quoted name tail h =
    rw
      (
        position-append (λ b. b == b'=') name (quote ∷ tail) b'=' (name_passes name h.printable)
            refl,
        sd_param,
      )
      (rw (
        take-append name (b'=' ∷ quote ∷ tail),
        (sd_name-IsName name).1 h,
        get_elem?-append_cons name tail b'=' quote,
        drop-append_cons_cons name tail b'=' quote,
      ))

-- A parameter is scanned to its end, and only a parameter is.
pub sd_param-IsParam : (s after : Bytes) → IsParam s after → sd_param s ≡ some after
sd_param-IsParam s after q =
    ap sd_param q.text
    ∙ sd_param-quoted q.name (q.value ++ quote ∷ after) q.named
    ∙ sd_value-append q.value after q.escaped_value q.utf8

-- What a parameter looks like behind its name.
param_tail :
    (name rest : Bytes) (found : ℕ)
    → found ≡ b'='
    → some_byte_is 0x22 (get_elem? (name ++ found ∷ rest) (length name + 1)) ≡ true
    → (tail : Bytes) × (name ++ found ∷ rest ≡ name ++ b'=' ∷ quote ∷ tail)
param_tail name [] found e h = absurd (ground (arith, get_end name found))
param_tail name (c ∷ rest) found e h = (
  rest,
  ap₂ (λ a b. name ++ a ∷ b ∷ rest) e (ground (arith, get_elem?-append_cons name rest found c)),
)

sound_at :
    (s after : Bytes) (n : ℕ)
    → IsSplit (λ b. b == b'=') s n
    → sd_name (take n s) ≡ true
    → some_byte_is 0x22 (get_elem? s (n + 1)) ≡ true
    → sd_param s ≡ some after
    → IsParam s after
sound_at s after n q named quoted h =
    let taken : take n s ≡ q.before =
      rw (← q.long, q.text) (take-append q.before (q.found ∷ q.after)) in
    let name_is : IsName q.before = (sd_name-IsName q.before).0 (rw taken at named) in
    let (tail, text) =
      param_tail q.before q.after q.found (ground (arith, q.hit))
        (rw (q.text, ← q.long) at quoted) in
    let (v, shape, good, utf8) =
      sd_value_sound tail after
        (sym (sd_param-quoted q.before tail name_is) ∙ ap sd_param (sym (q.text ∙ text)) ∙ h) in
    record {
      name = q.before;
      value = v;
      text = q.text ∙ text ∙ ap (λ t. q.before ++ b'=' ∷ quote ∷ t) shape;
      named = name_is;
      escaped_value = good;
      utf8 = utf8;
    }

sd_param-checks :
    (s after : Bytes) (n : ℕ)
    → position (λ b. b == b'=') s ≡ some n
    → sd_param s ≡ some after
    → (sd_name (take n s) ≡ true) × (some_byte_is 0x22 (get_elem? s (n + 1)) ≡ true)
unfolding sd_param
sd_param-checks s after n e h = ground arith

sd_param-position :
    (s after : Bytes) → sd_param s ≡ some after → (n : ℕ) × (position (λ b. b == b'=') s ≡ some n)
unfolding sd_param
sd_param-position s after h = ground arith

pub IsParam-sd_param : (s after : Bytes) → sd_param s ≡ some after → IsParam s after
IsParam-sd_param s after h =
    let (n, e) = sd_param-position s after h in
    let checks = sd_param-checks s after n e h in
    sound_at s after n (position-IsSplit (λ b. b == b'=') s n e) checks.0 checks.1 h

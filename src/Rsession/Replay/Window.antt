-- ===== src/Rsession/Replay/Window.antt =====
-- rsession/replay.rs: what the window notes of a number, and that a noted number is refused.
use rs_iec.Common.{
  ℕ, ◌+◌, ◌^◌, ◌≤◌, ◌<◌, ◌≡◌, refl, ap, ◌∙◌, Bool, true, false, ◌==◌, ltb, leb, ◌&&◌, ◌||◌,
  if◌then◌else◌, List, [], ◌∷◌, ◌++◌, get_or, set, take, replicate, length, zero, suc, arith,
  if_elim, get_or-set, length-set, length-take, length-append, IsU32, Bool-cases, inl, inr, ltb→lt,
  left_true, right_true, leb→le,
}
use rs_iec.Rsession.Replay.{
  ReplayWindow, shifted, wrapping_sub, behind, accept_ahead, accept_behind, accept_live,
}

get_or-take {ℓ} :
    {A : Type ℓ} (xs : List A) (n i : ℕ) (d : A) → i < n → get_or (take n xs) i d ≡ get_or xs i d
get_or-take xs zero i d h = absurd (omega (arith, h))
get_or-take [] (suc n) i d h = refl
get_or-take (x ∷ xs) (suc n) zero d h = refl
get_or-take (x ∷ xs) (suc n) (suc i) d h = get_or-take xs n i d (omega (arith, h))

get_or-replicate-append {ℓ} :
    {A : Type ℓ} (e i j : ℕ) (v d : A) (xs : List A)
    → j ≡ e + i
    → get_or (replicate e v ++ xs) j d ≡ get_or xs i d
get_or-replicate-append zero i j v d xs h = ap (λ n. get_or xs n d) (omega (arith, h))
get_or-replicate-append (suc e) i zero v d xs h = absurd (omega (arith, h))
get_or-replicate-append (suc e) i (suc j) v d xs h =
    get_or-replicate-append e i j v d xs (omega (arith, h))

-- How far a number is behind the top, in serial number arithmetic.
unfoldable pub age : ReplayWindow → ℕ → ℕ
age w n = wrapping_sub w.top n

-- The number is not ahead of the top, and if it is in the bitmap's range its bit is set.
pub record Noted (w : ReplayWindow) (n : ℕ) : Type 0 where
  pub bits : length w.seen ≡ 64
  pub top : IsU32 w.top
  pub marked : age w n < 64 → get_or w.seen (age w n) false ≡ true

-- What `accept` computes of a number that is not ahead is its age.
pub age-behind :
    (w : ReplayWindow) (n : ℕ)
    → IsU32 w.top
    → IsU32 n
    → age w n < 2 ^ 31
    → ((ltb 0 (wrapping_sub n w.top) && ltb (wrapping_sub n w.top) (2 ^ 31)) ≡ false)
      × (behind (wrapping_sub n w.top) ≡ age w n)
unfolding age behind wrapping_sub
age-behind w n ht hn h = (ground arith, ground arith)

-- A number behind a top that moves ahead is behind it by so much more.
age-ahead :
    (w : ReplayWindow) (n m now : ℕ)
    → IsU32 w.top
    → IsU32 n
    → IsU32 m
    → age w n < 2 ^ 31
    → 0 < wrapping_sub m w.top
    → wrapping_sub m w.top < 2 ^ 31
    → age (accept_ahead w m now (wrapping_sub m w.top)) n ≡ age w n + wrapping_sub m w.top
unfolding age wrapping_sub
age-ahead w n m now ht hn hm h pos small = omega arith

bit-shifted :
    (bits : List Bool) (e i : ℕ)
    → 0 < e
    → e + i < 64
    → length bits ≡ 64
    → get_or bits i false ≡ true
    → get_or (shifted bits e) (e + i) false ≡ true
unfolding shifted
bit-shifted bits e i pos room h k =
    let wide = replicate e false ++ bits in
    let size : length (take 64 wide) ≡ 64 =
      omega (arith, length-take 64 wide, length-append (replicate e false) bits, h) in
    let not_first : (0 == e + i) ≡ false = ground (arith, pos) in
    get_or-set (take 64 wide) 0 (e + i) true false (omega (arith, size))
    ∙ ap (λ b. if b then true else get_or (take 64 wide) (e + i) false) not_first
    ∙ get_or-take wide 64 (e + i) false room
    ∙ get_or-replicate-append e i (e + i) false false bits refl
    ∙ k

pub length-shifted : (bits : List Bool) (e : ℕ) → length bits ≡ 64 → length (shifted bits e) ≡ 64
unfolding shifted
length-shifted bits e h =
    let wide = replicate e false ++ bits in
    length-set (take 64 wide) 0 true
    ∙ omega (arith, length-take 64 wide, length-append (replicate e false) bits, h)

-- A later number ahead of the top leaves an accepted one noted.
ahead-Noted :
    (w : ReplayWindow) (n m now : ℕ)
    → Noted w n
    → IsU32 n
    → IsU32 m
    → age w n < 2 ^ 31
    → 0 < wrapping_sub m w.top
    → wrapping_sub m w.top < 2 ^ 31
    → Noted (accept_ahead w m now (wrapping_sub m w.top)) n
ahead-Noted w n m now h hn hm old pos small =
    let e = wrapping_sub m w.top in
    let moved = age-ahead w n m now h.top hn hm old pos small in
    record {
      bits =
          if_elim (λ bits. length bits ≡ 64) (leb 64 e) (λ _. refl)
            (λ _. length-shifted w.seen e h.bits);
      top = hm;
      marked = λ near.
          if_elim (λ bits. get_or bits (age (accept_ahead w m now e) n) false ≡ true) (leb 64 e)
            (λ far. absurd (omega (arith, moved, near, leb→le 64 e far)))
            (λ _.
              ap (λ i. get_or (shifted w.seen e) i false) (omega (arith, moved))
              ∙ bit-shifted w.seen e (age w n) pos (omega (arith, moved, near)) h.bits
                  (h.marked (omega (arith, moved, near))));
    }

-- A set bit stays set.
kept_mark :
    (bits : List Bool) (off i : ℕ)
    → get_or bits i false ≡ true
    → get_or (set bits off true) i false ≡ true
kept_mark [] off i h = h
kept_mark (b ∷ bits) zero zero h = refl
kept_mark (b ∷ bits) zero (suc i) h = h
kept_mark (b ∷ bits) (suc off) zero h = h
kept_mark (b ∷ bits) (suc off) (suc i) h = kept_mark bits off i h

-- So does one behind it.
behind-Noted :
    (w : ReplayWindow) (n off now size : ℕ) → Noted w n → Noted (accept_behind w off now size).0 n
unfolding age
behind-Noted w n off now size h =
    if_elim (λ (r : ReplayWindow × Bool). Noted r.0 n) (leb size off || get_or w.seen off false)
      (λ _. h)
      (λ _. record {
        bits = length-set w.seen off true ∙ h.bits;
        top = h.top;
        marked = λ near. kept_mark w.seen off (age w n) (h.marked near);
      })

pub live-Noted :
    (w : ReplayWindow) (n m now size : ℕ)
    → Noted w n
    → IsU32 n
    → IsU32 m
    → age w n < 2 ^ 31
    → Noted (accept_live w m now size).0 n
live-Noted w n m now size h hn hm old =
    if_elim (λ (r : ReplayWindow × Bool). Noted r.0 n)
      (ltb 0 (wrapping_sub m w.top) && ltb (wrapping_sub m w.top) (2 ^ 31))
      (λ ahead.
        ahead-Noted w n m now h hn hm old (ltb→lt _ _ (left_true _ _ ahead))
          (ltb→lt _ _ (right_true (ltb 0 (wrapping_sub m w.top)) _ ahead)))
      (λ _. behind-Noted w n _ now size h)

pub if_true {ℓ} : {A : Type ℓ} (x y : A) (b : Bool) → b ≡ true → (if b then x else y) ≡ x
if_true x y b h = ap (λ c. if c then x else y) h

pub if_false {ℓ} : {A : Type ℓ} (x y : A) (b : Bool) → b ≡ false → (if b then x else y) ≡ y
if_false x y b h = ap (λ c. if c then x else y) h

abbrev pub verdict : ReplayWindow × Bool → Bool
verdict r = r.1

-- A noted number is refused.
refusal :
    (size off : ℕ) (marked : Bool)
    → size ≤ 64
    → (off < 64 → marked ≡ true)
    → (leb size off || marked) ≡ true
refusal size off marked small h = elim (Bool-cases (ltb off 64)) [
  | inl near ↦ ground (arith, h (ltb→lt off 64 near))
  | inr far ↦ ground (arith, small, far)
]

pub live-refused :
    (w : ReplayWindow) (n now size : ℕ)
    → Noted w n
    → IsU32 n
    → age w n < 2 ^ 31
    → size ≤ 64
    → (accept_live w n now size).1 ≡ false
live-refused w n now size h hn old small =
    let place = age-behind w n h.top hn old in
    let ahead = wrapping_sub n w.top in
    ap verdict (if_false _ _ _ place.0)
    ∙ ap (λ o. verdict (accept_behind w o now size)) place.1
    ∙ ap verdict (
        if_true _ _ (leb size (age w n) || get_or w.seen (age w n) false)
          (refusal size (age w n) (get_or w.seen (age w n) false) small h.marked))

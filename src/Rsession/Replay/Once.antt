-- ===== src/Rsession/Replay/Once.antt =====
-- rsession/replay.rs: a number is accepted once.
use rs_iec.Common.{
  ℕ, ◌^◌, ◌≤◌, ◌<◌, ◌≡◌, refl, sym, ap, ◌∙◌, Bool, true, false, ltb, leb, ◌&&◌, ◌||◌, List, [], ◌∷◌,
  ◌++◌, Option, get_or, set, take, replicate, length, zero, suc, arith, if_elim, length-set,
  length-take, length-append, IsU32,
}
use mathlib.Core.Path.{subst}
use rs_iec.Rsession.Replay.{
  ReplayWindow, only_top, shifted, wrapping_sub, behind, expired, accept_live, accept,
}
use rs_iec.Rsession.Replay.Window.{
  age, Noted, length-shifted, live-Noted, live-refused, if_false, verdict,
}

-- A call of `accept`.
pub record Call : Type 0 where
  pub number : ℕ
  pub now : ℕ

-- The window after a series of calls.
unfoldable pub after : ReplayWindow → ℕ → Option ℕ → List Call → ReplayWindow
after w size reset [] = w
after w size reset (c ∷ more) = after (accept w c.number c.now size reset).0 size reset more

-- Through a series of calls with `u32` numbers, and at an instant behind it, the window has not
-- expired, and the number is less than 2^31 behind the top.
unfoldable pub Recent : ℕ → ℕ → Option ℕ → ℕ → ReplayWindow → List Call → Type 0
Recent n size reset now w [] = (age w n < 2 ^ 31) × (expired w.last reset now ≡ false)
Recent n size reset now w (c ∷ more) =
    IsU32 c.number
    × (age w n < 2 ^ 31)
    × (expired w.last reset c.now ≡ false)
    × Recent n size reset now (accept w c.number c.now size reset).0 more

after-refused :
    (calls : List Call) (w : ReplayWindow) (n size : ℕ) (reset : Option ℕ) (now : ℕ)
    → Noted w n
    → IsU32 n
    → size ≤ 64
    → Recent n size reset now w calls
    → (accept (after w size reset calls) n now size reset).1 ≡ false
unfolding after Recent accept
after-refused [] w n size reset now h hn small r =
    ap verdict (if_false _ _ (expired w.last reset now) r.1)
    ∙ live-refused w n now size h hn r.0 small
after-refused (c ∷ more) w n size reset now h hn small r =
    let live : accept w c.number c.now size reset ≡ accept_live w c.number c.now size =
      if_false _ _ (expired w.last reset c.now) r.2 in
    let noted =
      subst (λ (o : ReplayWindow × Bool). Noted o.0 n) (sym live)
        (live-Noted w n c.number c.now size h hn r.0 r.1) in
    after-refused more (accept w c.number c.now size reset).0 n size reset now noted hn small r.3

age_of_top : (n : ℕ) → IsU32 n → wrapping_sub n n ≡ 0
unfolding wrapping_sub
age_of_top n h = omega arith

age_of_behind : (top n : ℕ) → IsU32 top → IsU32 n → wrapping_sub top n ≡ behind (wrapping_sub n top)
unfolding wrapping_sub behind
age_of_behind top n h k = ground arith

set_same : (bits : List Bool) (i : ℕ) → i < length bits → get_or (set bits i true) i false ≡ true
set_same [] i h = absurd (omega (arith, h))
set_same (b ∷ bits) zero h = refl
set_same (b ∷ bits) (suc i) h = set_same bits i (omega (arith, h))

first-shifted :
    (bits : List Bool) (e : ℕ) → length bits ≡ 64 → get_or (shifted bits e) 0 false ≡ true
unfolding shifted
first-shifted bits e h =
    let wide = replicate e false ++ bits in
    set_same (take 64 wide) 0
      (omega (arith, length-take 64 wide, length-append (replicate e false) bits, h))

accepted-Noted :
    (w : ReplayWindow) (n now size : ℕ) (reset : Option ℕ)
    → IsU32 n
    → IsU32 w.top
    → length w.seen ≡ 64
    → (accept w n now size reset).1 ≡ true
    → Noted (accept w n now size reset).0 n
unfolding accept age
accepted-Noted w n now size reset hn ht bits ok =
    if_elim Accepted (expired w.last reset now)
      (λ _ _. record { bits = refl; top = hn; marked = λ _. at_top only_top refl })
      (λ _.
        if_elim Accepted (ltb 0 ahead && ltb ahead (2 ^ 31))
          (λ _ _. record {
            bits =
                if_elim (λ (l : List Bool). length l ≡ 64) (leb 64 ahead) (λ _. refl)
                  (λ _. length-shifted w.seen ahead bits);
            top = hn;
            marked = λ _. at_top _ (
                if_elim (λ (l : List Bool). get_or l 0 false ≡ true) (leb 64 ahead) (λ _. refl)
                  (λ _. first-shifted w.seen ahead bits));
          })
          (λ not_ahead.
            if_elim Accepted (leb size off || get_or w.seen off false)
              (λ _ refused. absurd (contradiction refused))
              (λ _ _. record {
                bits = length-set w.seen off true ∙ bits;
                top = ht;
                marked = λ near. marked_at (wrapping_sub w.top n) (same not_ahead) near;
              })))
      ok
  where
    ahead : ℕ
    ahead = wrapping_sub n w.top

    off : ℕ
    off = behind (wrapping_sub n w.top)

    Accepted : ReplayWindow × Bool → Type 0
    Accepted r = r.1 ≡ true → Noted r.0 n

    contradiction : false ≡ true → ⊥
    contradiction e = cc

    at_top : (l : List Bool) → get_or l 0 false ≡ true → get_or l (wrapping_sub n n) false ≡ true
    at_top l h = ap (λ i. get_or l i false) (age_of_top n hn) ∙ h

    same :
        (ltb 0 (wrapping_sub n w.top) && ltb (wrapping_sub n w.top) (2 ^ 31)) ≡ false
        → wrapping_sub w.top n ≡ off
    same h = age_of_behind w.top n ht hn

    marked_at :
        (i : ℕ)
        → i ≡ behind (wrapping_sub n w.top)
        → i < 64
        → get_or (set w.seen off true) i false ≡ true
    marked_at i e near =
        ap (λ o. get_or (set w.seen o true) i false) (sym e)
        ∙ set_same w.seen i (omega (arith, near, bits))

-- A number that was accepted is not accepted again, whatever numbers come in between, as long as the
-- window does not expire and the top has not moved 2^31 numbers or more past it, with a window of at
-- most 64 numbers. The window's bitmap has 64 bits, and its top and all the numbers are `u32`s.
pub accept_once :
    (w : ReplayWindow) (n start size : ℕ) (reset : Option ℕ) (calls : List Call) (now : ℕ)
    → IsU32 n
    → IsU32 w.top
    → length w.seen ≡ 64
    → size ≤ 64
    → (accept w n start size reset).1 ≡ true
    → Recent n size reset now (accept w n start size reset).0 calls
    → (accept (after (accept w n start size reset).0 size reset calls) n now size reset).1 ≡ false
accept_once w n start size reset calls now hn ht bits small ok recent =
    after-refused calls (accept w n start size reset).0 n size reset now
      (accepted-Noted w n start size reset hn ht bits ok) hn small recent

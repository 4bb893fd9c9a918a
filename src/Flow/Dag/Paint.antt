-- ===== src/Flow/Dag/Paint.antt =====
-- The map of colors, and how many of the names it leaves white.
use agentops_operator.Prelude.{
  ℕ, suc, ◌≤◌, ◌<◌, String, Bool, true, false, List, [], ◌∷◌, Memᴰ, ◌≡◌, ◌≢◌, refl, ◌⊎◌, inl, inr,
  name_cases, arith, length, if◌then◌else◌, eq_refl, sym, ◌∙◌, ap,
}
use agentops_operator.Flow.Dag.{Color, white, Colors, paint}

abbrev pub is_white : Color → Bool
is_white white = true
is_white _ = false

abbrev pub whites : List String → Colors → ℕ
whites [] c = 0
whites (n ∷ ns) c = if is_white (c n) then suc (whites ns c) else whites ns c

pub paint_self : (d : String) (col : Color) (c : Colors) → paint d col c d ≡ col
unfolding paint
paint_self d col c = rw (eq_refl d)

pub paint_cases :
    (d : String) (col : Color) (c : Colors) (n : String)
    → ((n ≡ d) × (paint d col c n ≡ col)) ⊎ ((n ≢ d) × (paint d col c n ≡ c n))
unfolding paint
paint_cases d col c n = elim (name_cases n d) [
  | inl (e, t) ↦ inl (e, rw t)
  | inr (e, t) ↦ inr (e, rw t)
]

-- A map that turns nothing white has no more white names.
pub whites_mono :
    (names : List String) (c c' : Colors)
    → ((n : String) → c' n ≡ white → c n ≡ white)
    → whites names c' ≤ whites names c
whites_mono [] c c' h = omega arith
whites_mono (n ∷ ns) c c' h = ground (arith, whites_mono ns c c' h, h n)

pub whites_pos :
    (names : List String) (c : Colors) (d : String)
    → Memᴰ d names
    → c d ≡ white
    → 0 < whites names c
whites_pos [] c d m w = elim m [ ]
whites_pos (n ∷ ns) c d (Memᴰ.head e) w = rw (← e, w) (omega arith)
whites_pos (n ∷ ns) c d (Memᴰ.tail m) w = ground (arith, whites_pos ns c d m w)

pub paint_ne : (d : String) (col : Color) (c : Colors) (n : String) → n ≢ d → paint d col c n ≡ c n
paint_ne d col c n h = elim (paint_cases d col c n) [ inl (e, _) ↦ absurd (h e) | inr (_, e) ↦ e ]

-- A color other than the one painted was there before.
pub paint_old :
    (d : String) (col : Color) (c : Colors) (n : String) {x : Color}
    → col ≢ x
    → paint d col c n ≡ x
    → c n ≡ x
paint_old d col c n h p = elim (paint_cases d col c n) [
  | inl (_, e) ↦ absurd (h (sym e ∙ p))
  | inr (_, e) ↦ sym e ∙ p
]

-- Painting a white name leaves fewer.
pub whites-paint_lt :
    (names : List String) (c : Colors) (d : String) (col : Color)
    → Memᴰ d names
    → c d ≡ white
    → col ≢ white
    → whites names (paint d col c) < whites names c
whites-paint_lt [] c d col m w h = elim m [ ]
whites-paint_lt (n ∷ ns) c d col (Memᴰ.head e) w h =
    ground
      (arith, paint_self d col c, whites_mono ns c (paint d col c) (λ n. paint_old d col c n h))
whites-paint_lt (n ∷ ns) c d col (Memᴰ.tail m) w h =
    ground (arith, whites-paint_lt ns c d col m w h, paint_old d col c n h)

pub whites-all : (names : List String) → whites names (λ _. white) ≡ length names
whites-all [] = refl
whites-all (n ∷ ns) = ap suc (whites-all ns)

-- ===== src/Transport/UnackedWindow.antt =====
-- `UnackedWindow` (src/transport/state/unacked_window.rs), for any type of packet: the window does
-- not look into it.
pub mod Slots
pub mod Map
pub mod Order
pub mod Iter
pub mod Weight
pub mod Append
pub mod Tests
use zetta_transport.Common.{ℕ, ◌+◌, ◌-◌, Bool, true, false, ◌&&◌, List, [], ◌∷◌, ◌++◌}
use zetta_transport.Common.{
  Option, none, some, ltb, leb, ◌==◌, if◌then◌else◌, length, get_or, set, replicate, map,
}

pub record UnackedWindow {ℓ} (A : Type ℓ) : Type ℓ where
  pub base_pn : ℕ
  pub deque : List (Option A)
  pub len : ℕ

module _ {ℓ} {A : Type ℓ} where
  abbrev pub is_some : Option A → Bool
  is_some none = false
  is_some (some a) = true

  abbrev pub is_nil : List (Option A) → Bool
  is_nil [] = true
  is_nil (x ∷ xs) = false

  unfoldable pub new : UnackedWindow A
  new = record { base_pn = 0; deque = []; len = 0 }

  -- `deque.resize_with(n, || None)` for an `n` above the length.
  abbrev pub resize : List (Option A) → ℕ → List (Option A)
  resize deque n = deque ++ replicate (n - length deque) none

  unfoldable pub insert_at : UnackedWindow A → ℕ → A → UnackedWindow A
  insert_at w idx packet =
      let deque = if leb (length w.deque) idx then resize w.deque (idx + 1) else w.deque in
      record {
        base_pn = w.base_pn;
        deque = set deque idx (some packet);
        len = if is_some (get_or deque idx none) then w.len else w.len + 1;
      }

  unfoldable pub insert : UnackedWindow A → ℕ → A → UnackedWindow A
  unfolding insert_at
  insert w pn packet =
      let based = if w.len == 0 && is_nil w.deque then record w { base_pn = pn } else w in
      if ltb pn based.base_pn then based else insert_at based (pn - based.base_pn) packet

  -- `while let Some(None) = deque.front() { deque.pop_front(); base_pn += 1; }`
  unfoldable pub pop_free : ℕ → List (Option A) → ℕ × List (Option A)
  pop_free base_pn [] = (base_pn, [])
  pop_free base_pn (none ∷ slots) = pop_free (base_pn + 1) slots
  pop_free base_pn (some a ∷ slots) = (base_pn, some a ∷ slots)

  unfoldable pub remove : UnackedWindow A → ℕ → Option A × UnackedWindow A
  unfolding pop_free
  remove w pn =
      let idx = pn - w.base_pn in
      if ltb pn w.base_pn
      then (none, w)
      else if ltb idx (length w.deque)
      then (let val = get_or w.deque idx none in
          let rest = pop_free w.base_pn (set w.deque idx none) in
          (
            val,
            record {
              base_pn = rest.0;
              deque = rest.1;
              len = if is_some val then w.len - 1 else w.len;
            },
          ))
      else (none, w)

  unfoldable pub clear : UnackedWindow A → UnackedWindow A
  clear w = record { base_pn = 0; deque = []; len = 0 }

  unfoldable pub is_empty : UnackedWindow A → Bool
  is_empty w = w.len == 0

  unfoldable pub get_mut : UnackedWindow A → ℕ → Option A
  get_mut w pn = if ltb pn w.base_pn then none else get_or w.deque (pn - w.base_pn) none

  unfoldable pub iter_from : ℕ → List (Option A) → List (ℕ × A)
  iter_from pn [] = []
  iter_from pn (none ∷ slots) = iter_from (pn + 1) slots
  iter_from pn (some a ∷ slots) = (pn, a) ∷ iter_from (pn + 1) slots

  unfoldable pub iter : UnackedWindow A → List (ℕ × A)
  unfolding iter_from
  iter w = iter_from w.base_pn w.deque

  unfoldable pub keys : UnackedWindow A → List ℕ
  unfolding iter
  keys w = map (λ e. e.0) (iter w)

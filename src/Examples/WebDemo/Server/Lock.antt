-- ===== src/Examples/WebDemo/Server/Lock.antt =====
-- The lock of httpd-simple.c: what the connections that do not hold it may do.
use nsdscourse.Base.{
  ℕ, ◌≡◌, ◌≢◌, refl, ap, sym, ◌∙◌, subst, Bool, Bool-cases, inl, inr, true, false, ◌&&◌, Option,
  none, some, List, length, arith, ltb, ◌==◌, if◌then◌else◌,
}
use nsdscourse.Examples.WebDemo.Form.{Parser, Handler}
use nsdscourse.Examples.WebDemo.Server.{
  ℤ, exceeds, starts_with, Point, method, get_path, post_path, rest_of_line, header, body, output,
  exited, Connection, Shared, code_su, is_ok, is_held, while_body, check_length, begin_body,
  end_headers,
}
use nsdscourse.Examples.WebDemo.Server.Input.{
  content_length_name, read_header, parse_body, input_at,
}

abbrev pub is_body : Point → Bool
is_body body = true
is_body _ = false

read_header-point :
    (atoi : List ℕ → ℤ) (input : List ℕ) (c : Connection)
    → (read_header atoi input c).point ≡ c.point
read_header-point atoi input c =
    elim (Bool-cases (ltb 14 (length input) && starts_with input content_length_name)) [
      | inl e ↦ rw e refl
      | inr e ↦ rw e refl
    ]

-- Everything of the parser but its flag for a new configuration.
abbrev pub form : {S : Type 0} → Parser S → Parser S
form p = record p { config_ok = false }

-- A step of another connection, with the lock at the slot.
pub record Keeps {S : Type 0} (slot : ℕ) (sh : Shared S) (r : Connection × Shared S) : Type 0 where
  pub lock : r.1.lock ≡ some slot
  pub form : form r.1.parser ≡ form sh.parser
  pub not_body : is_body r.0.point ≡ false

pub is_held-ne : (i j : ℕ) → i ≢ j → (j == i) ≡ false
is_held-ne i j h = elim (Bool-cases (j == i)) [ inl e ↦ absurd (h (ground (arith, e))) | inr e ↦ e ]

module _ {S : Type 0} (i j : ℕ) (h : i ≢ j) where
  abbrev locked : Shared S → Shared S
  locked sh = record sh { lock = some j }

  while_body-Keeps : (c : Connection) (sh : Shared S) → Keeps j sh (while_body i c (locked sh))
  while_body-Keeps c sh = elim (Bool-cases (exceeds c.content_length 0)) [
    | inl e ↦ rw (e, is_held-ne i j h) (record { lock = refl; form = refl; not_body = refl })
    | inr e ↦ rw (e, is_held-ne i j h) (record { lock = refl; form = refl; not_body = refl })
  ]

  begin_body-locked :
      (c : Connection) (sh : Shared S)
      → begin_body i c (locked sh) ≡ (
          if is_ok c.return_code
          then (record c { return_code = code_su }, locked sh)
          else (c, locked sh))
  begin_body-locked c sh = rw (is_held-ne i j h) refl

  end_headers-Keeps : (c : Connection) (sh : Shared S) → Keeps j sh (end_headers i c (locked sh))
  end_headers-Keeps c sh =
      subst (λ (r : Connection × Shared S). Keeps j sh (while_body i r.0 r.1))
        (sym (begin_body-locked (check_length c) sh))
        (elim (Bool-cases (is_ok (check_length c).return_code)) [
          | inl e ↦ rw e (while_body-Keeps (record (check_length c) { return_code = code_su }) sh)
          | inr e ↦ rw e (while_body-Keeps (check_length c) sh)
        ])

  module _ (atoi : List ℕ → ℤ) (handlers : List (Option (Handler S))) where
    pub input_at-Keeps :
        (p : Point) (input : List ℕ) (c : Connection) (sh : Shared S)
        → c.point ≡ p
        → is_body p ≡ false
        → Keeps j sh (input_at atoi handlers p i input c (locked sh))
    input_at-Keeps method input c sh e b = record {
      lock = refl;
      form = refl;
      not_body = ground arith;
    }
    input_at-Keeps get_path input c sh e b = record {
      lock = refl;
      form = refl;
      not_body = ground arith;
    }
    input_at-Keeps post_path input c sh e b = record {
      lock = refl;
      form = refl;
      not_body = ground arith;
    }
    input_at-Keeps rest_of_line input c sh e b = record {
      lock = refl;
      form = refl;
      not_body = ap is_body (read_header-point atoi input _);
    }
    input_at-Keeps header input c sh e b = elim (Bool-cases (length input == 2)) [
      | inl l ↦ rw l (end_headers-Keeps c sh)
      | inr l ↦ rw l (record {
        lock = refl;
        form = refl;
        not_body = ap is_body (read_header-point atoi input c ∙ e);
      })
    ]
    input_at-Keeps body input c sh e b = ground (arith, b)
    input_at-Keeps output input c sh e b = record {
      lock = refl;
      form = refl;
      not_body = ap is_body e;
    }
    input_at-Keeps exited input c sh e b = record {
      lock = refl;
      form = refl;
      not_body = ap is_body e;
    }

-- A step after which the connection reads a body only if it holds the lock.
abbrev pub Owns : {S : Type 0} → ℕ → Connection × Shared S → Type 0
Owns i r = is_body r.0.point ≡ true → r.1.lock ≡ some i

is_held-lock : (i : ℕ) (l : Option ℕ) → is_held i l ≡ true → l ≡ some i
is_held-lock i none h = ground (arith, h)
is_held-lock i (some j) h = ap some (ground (arith, h))

module _ {S : Type 0} (i : ℕ) where
  while_body-Owns : (c : Connection) (sh : Shared S) → Owns i (while_body i c sh)
  while_body-Owns c sh = elim (Bool-cases (exceeds c.content_length 0)) [
    | inl e ↦ elim (Bool-cases (is_held i sh.lock)) [
      | inl l ↦ elim (Bool-cases (is_ok c.return_code)) [
        | inl k ↦ rw (e, l, k) (λ h. is_held-lock i sh.lock l)
        | inr k ↦ rw (e, l, k) (λ h. ground (arith, h))
      ]
      | inr l ↦ rw (e, l) (λ h. ground (arith, h))
    ]
    | inr e ↦ rw e (λ h. ground (arith, h))
  ]

  module _ (atoi : List ℕ → ℤ) (handlers : List (Option (Handler S))) where
    pub input_at-Owns :
        (p : Point) (input : List ℕ) (c : Connection) (sh : Shared S)
        → c.point ≡ p
        → Owns i (input_at atoi handlers p i input c sh)
    input_at-Owns method input c sh e = λ h. ground (arith, h)
    input_at-Owns get_path input c sh e = λ h. ground (arith, h)
    input_at-Owns post_path input c sh e = λ h. ground (arith, h)
    input_at-Owns rest_of_line input c sh e =
        λ h. ground (arith, sym h ∙ ap is_body (read_header-point atoi input _))
    input_at-Owns header input c sh e = elim (Bool-cases (length input == 2)) [
      | inl l ↦ let (c', sh') = begin_body i (check_length c) sh in rw l (while_body-Owns c' sh')
      | inr l ↦ rw l (λ h. ground (arith, sym h ∙ ap is_body (read_header-point atoi input c ∙ e)))
    ]
    input_at-Owns body input c sh e =
        let (c', sh') = parse_body handlers input c sh in while_body-Owns c' sh'
    input_at-Owns output input c sh e = λ h. ground (arith, sym h ∙ ap is_body e)
    input_at-Owns exited input c sh e = λ h. ground (arith, sym h ∙ ap is_body e)

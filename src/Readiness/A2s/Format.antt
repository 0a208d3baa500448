-- ===== src/Readiness/A2s/Format.antt =====
-- The parser of A2S answers against the format, and what makes a probe succeed
-- (pkg/readiness/a2s.go).
use game_server_snooze.Common.{
  ℕ, zero, suc, ◌≡◌, ◌≢◌, ◌↔◌, inl, inr, refl, sym, subst, ◌∙◌, ap, Bool, true, false, ◌==◌, none,
  some, [], ◌∷◌, ◌++◌, arith, length, take, drop, length-append, length-take, take-append-drop,
  drop-append, ltb, Bool-cases, Option-cases, All,
}
use game_server_snooze.Session.{Packet}
use game_server_snooze.Readiness.A2s.{
  after_zero, skip_strings, has_fields_and_version, valid_a2s_info,
}

-- A string with its final zero byte stands before the rest.
abbrev pub IsString : Packet → Packet → Type 0
IsString bytes rest = (text : Packet) × All (λ b. b ≢ 0) text × (bytes ≡ text ++ 0 ∷ rest)

after_zero_sound : (bytes rest : Packet) → after_zero bytes ≡ some rest → IsString bytes rest
unfolding after_zero
after_zero_sound [] rest h = absurd (ground arith)
after_zero_sound (b ∷ bytes) rest h = elim (Bool-cases (b == 0)) [
  | inl ends ↦ ([], tt, ground (arith, ends))
  | inr inside ↦
      let (text, all, e) = after_zero_sound bytes rest (ground (arith, inside)) in
      (b ∷ text, ((λ z. absurd (ground (arith, inside, z))), all), ap (λ bs. b ∷ bs) e)
]

after_zero_complete :
    (text rest : Packet) → All (λ b. b ≢ 0) text → after_zero (text ++ 0 ∷ rest) ≡ some rest
unfolding after_zero
after_zero_complete [] rest h = refl
after_zero_complete (b ∷ text) rest (nz, h) = ground (arith, nz, after_zero_complete text rest h)

after_zero-IsString : (bytes rest : Packet) → IsString bytes rest → after_zero bytes ≡ some rest
after_zero-IsString bytes rest (text, all, e) = ap after_zero e ∙ after_zero_complete text rest all

-- So many strings, each with its final zero byte, stand before the rest.
abbrev pub AreStrings : ℕ → Packet → Packet → Type 0
AreStrings zero bytes rest = bytes ≡ rest
AreStrings (suc n) bytes rest = (mid : Packet) × IsString bytes mid × AreStrings n mid rest

skip_strings_iff :
    (n : ℕ) (bytes rest : Packet) → (skip_strings n bytes ≡ some rest) ↔ AreStrings n bytes rest
unfolding skip_strings
skip_strings_iff zero bytes rest = (λ h. ground arith, λ h. ap some h)
skip_strings_iff (suc n) bytes rest = elim (Option-cases (after_zero bytes)) [
  | inl ends ↦ (
    λ h. absurd (ground (arith, ends)),
    λ (mid, here, later). absurd (cc (ends, after_zero-IsString bytes mid here)),
  )
  | inr (mid, found) ↦
      let (sound, complete) = skip_strings_iff n mid rest in
      (
        λ h. (mid, after_zero_sound bytes mid found, sound (ground (arith, found))),
        λ (mid', here, later).
            let same : mid' ≡ mid = cc (found, after_zero-IsString bytes mid' here) in
            ground (arith, found, complete (subst (λ m. AreStrings n m rest) same later)),
      )
]

-- The header, the type byte 49 (hexadecimal), the protocol byte, four strings, nine bytes of fields
-- and the version string; anything may follow.
abbrev pub IsA2sInfo : Packet → Type 0
IsA2sInfo response =
    (header : Packet) × (protocol : ℕ) × (body : Packet) × (fields : Packet) × (version : Packet)
    × (trailing : Packet) × (length header ≡ 4)
    × (response ≡ header ++ 73 ∷ protocol ∷ body)
    × AreStrings 4 body (fields ++ version)
    × (length fields ≡ 9)
    × IsString version trailing

drop_prefix : (n : ℕ) (xs ys zs : Packet) → length xs ≡ n → zs ≡ xs ++ ys → drop n zs ≡ ys
drop_prefix n xs ys zs len e = cc (len, e, drop-append xs ys)

fields_iff :
    (bytes : Packet)
    → (has_fields_and_version bytes ≡ true) ↔ (
        (fields : Packet) × (version : Packet) × (trailing : Packet) × (bytes ≡ fields ++ version)
        × (length fields ≡ 9)
        × IsString version trailing)
unfolding has_fields_and_version
fields_iff bytes = elim (Bool-cases (ltb (length bytes) 9)) [
  | inl short ↦ (
    λ h. absurd (ground (arith, short)),
    λ (fields, version, trailing, e, nine, string).
        absurd (ground (arith, short, ap length e, length-append fields version)),
  )
  | inr long ↦ elim (Option-cases (after_zero (drop 9 bytes))) [
    | inl ends ↦ (
      λ h. absurd (ground (arith, ends, long)),
      λ (fields, version, trailing, e, nine, string). absurd (
          cc (
            ends,
            ap after_zero (drop_prefix 9 fields version bytes nine e),
            after_zero-IsString version trailing string,
          )),
    )
    | inr (rest, found) ↦ (
      λ h. (
        take 9 bytes,
        drop 9 bytes,
        rest,
        sym (take-append-drop 9 bytes),
        length-take 9 bytes (ground (arith, long)),
        after_zero_sound (drop 9 bytes) rest found,
      ),
      λ h. ground (arith, long, found),
    )
  ]
]

abbrev accepts : Packet → Bool
accepts body = elim (skip_strings 4 body) [ none ↦ false | some rest ↦ has_fields_and_version rest ]

abbrev IsBody : Packet → Packet → Packet → Packet → Type 0
IsBody body fields version trailing =
    AreStrings 4 body (fields ++ version) × (length fields ≡ 9) × IsString version trailing

accepts_iff :
    (body : Packet)
    → (accepts body ≡ true) ↔ (
        (fields : Packet) × (version : Packet) × (trailing : Packet) × IsBody body fields version
          trailing)
accepts_iff body = elim (Option-cases (skip_strings 4 body)) [
  | inl ends ↦ (
    λ h. absurd (ground (arith, ends)),
    λ (fields, version, trailing, (strings, nine, string)).
        absurd (cc (ends, (skip_strings_iff 4 body (fields ++ version)).1 strings)),
  )
  | inr (rest, found) ↦
      let (sound, complete) = fields_iff rest in
      (
        λ h.
            let (fields, version, trailing, e, nine, string) = sound (ground (arith, found, h)) in
            (
              fields,
              version,
              trailing,
              ((skip_strings_iff 4 body (fields ++ version)).0 (cc (found, e)), nine, string),
            ),
        λ (fields, version, trailing, (strings, nine, string)).
            let e : rest ≡ fields ++ version =
              cc (found, (skip_strings_iff 4 body (fields ++ version)).1 strings) in
            ground (arith, found, complete (fields, version, trailing, e, nine, string)),
      )
]

shape :
    (response : Packet)
    → valid_a2s_info response ≡ true
    → (header : Packet) × (protocol : ℕ) × (body : Packet) × (length header ≡ 4)
      × (response ≡ header ++ 73 ∷ protocol ∷ body)
      × (accepts body ≡ true)
unfolding valid_a2s_info
shape (a ∷ b ∷ c ∷ d ∷ t ∷ p ∷ body) h = (
  a ∷ b ∷ c ∷ d ∷ [],
  p,
  body,
  refl,
  ap (λ x. a ∷ b ∷ c ∷ d ∷ x ∷ p ∷ body) (ground arith),
  ground arith,
)
shape [] h = absurd (ground arith)
shape (a ∷ []) h = absurd (ground arith)
shape (a ∷ b ∷ []) h = absurd (ground arith)
shape (a ∷ b ∷ c ∷ []) h = absurd (ground arith)
shape (a ∷ b ∷ c ∷ d ∷ []) h = absurd (ground arith)
shape (a ∷ b ∷ c ∷ d ∷ t ∷ []) h = absurd (ground arith)

shape_complete :
    (header : Packet) (protocol : ℕ) (body : Packet)
    → length header ≡ 4
    → valid_a2s_info (header ++ 73 ∷ protocol ∷ body) ≡ accepts body
unfolding valid_a2s_info
shape_complete (a ∷ b ∷ c ∷ d ∷ []) protocol body h = ground arith
shape_complete [] protocol body h = absurd (omega arith)
shape_complete (a ∷ []) protocol body h = absurd (omega arith)
shape_complete (a ∷ b ∷ []) protocol body h = absurd (omega arith)
shape_complete (a ∷ b ∷ c ∷ []) protocol body h = absurd (omega arith)
shape_complete (a ∷ b ∷ c ∷ d ∷ e ∷ header) protocol body h = absurd (omega arith)

-- The parser accepts exactly the answers of that format.
pub valid_a2s_info_iff : (response : Packet) → (valid_a2s_info response ≡ true) ↔ IsA2sInfo response
valid_a2s_info_iff response = (
  λ h.
      let (header, protocol, body, four, e, accepted) = shape response h in
      let (fields, version, trailing, (strings, nine, string)) = (accepts_iff body).0 accepted in
      (header, protocol, body, fields, version, trailing, four, e, strings, nine, string),
  λ (header, protocol, body, fields, version, trailing, four, e, strings, nine, string).
      ap valid_a2s_info e
      ∙ shape_complete header protocol body four
      ∙ (accepts_iff body).1 (fields, version, trailing, (strings, nine, string)),
)

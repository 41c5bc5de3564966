-- ===== src/Log/Render.antt =====
-- What a terminal shows of a line of the log.
use cisco_socks_server.Prelude.{
  ℕ, true, false, ◌&&◌, ◌||◌, List, [], ◌∷◌, ◌++◌, Bytes, bytes, leb, if◌then◌else◌, is_empty,
  str_eq, ◌≡◌, refl, sym, ap, ◌∙◌, arith, All, All-append, append_assoc, append-nil, subst, if_elim,
  Bool-cases, inl, inr,
}
use cisco_socks_server.Log.Shown.{shown, Shows, IsPlain, Shows-plain, Shows-append, Shows-colorize}
use cisco_socks_server.Log.{
  colorize, is_nil, format_level, level_error, level_warn, level_info, Attr, value_text, is_zero,
  LogRecord, ColorHandler, format_time, append_attr, append_attrs, head_of, handle,
}

-- The line as it is meant to be read: the time, the level, the message, the attributes as they
-- were given, without those that are empty, and the last error.
abbrev pub level_name : ℕ → Bytes
level_name l =
    if leb level_error l
    then bytes "ERR"
    else if leb level_warn l
    then bytes "WRN"
    else if leb level_info l
    then bytes "INF"
    else bytes "DBG"

abbrev pub attr_text : Attr → Bytes
attr_text a =
    if is_zero a || str_eq a.key (bytes "error")
    then []
    else b' ' ∷ (a.key ++ (b'=' ∷ value_text a.value))

abbrev pub attrs_text : List Attr → Bytes
attrs_text [] = []
attrs_text (a ∷ more) = attr_text a ++ attrs_text more

abbrev pub last_error : Bytes → List Attr → Bytes
last_error e [] = e
last_error e (a ∷ more) =
    last_error (if str_eq a.key (bytes "error") then value_text a.value else e) more

abbrev pub error_text : Bytes → Bytes
error_text e = if is_empty e then [] else b' ' ∷ e

abbrev pub plain_head : LogRecord → Bytes
plain_head r = format_time r.time ++ (b' ' ∷ (level_name r.level ++ (b' ' ∷ r.message)))

abbrev pub plain_line : List Attr → LogRecord → Bytes
plain_line attrs r =
    (plain_head r ++ attrs_text attrs) ++ (error_text (last_error [] attrs) ++ (b'\n' ∷ []))

abbrev pub IsPlainAttr : Attr → Type 0
IsPlainAttr a = IsPlain a.key × IsPlain (value_text a.value)

Shows-blank : {p p' : Bytes} → Shows p p' → Shows (b' ' ∷ p) (b' ' ∷ p')
Shows-blank {p} {p'} h =
    Shows-append {p = b' ' ∷ []} {p' = b' ' ∷ []} (Shows-plain (b' ' ∷ []) (omega arith)) h

is_zero-key : (a : Attr) → is_zero a ≡ true → str_eq a.key (bytes "error") ≡ false
unfolding is_zero str_eq
is_zero-key a h = by_key a.key h
  where
    by_key : (k : Bytes) → (is_empty k && is_nil a.value) ≡ true → str_eq k (bytes "error") ≡ false
    by_key [] h = refl
    by_key (c ∷ k) h = cc

append_attr-Shows :
    (a : Attr) (b b' e : Bytes)
    → IsPlainAttr a
    → Shows b b'
    → Shows (append_attr a (b, e)).0 (b' ++ attr_text a)
      × ((append_attr a (b, e)).1 ≡ last_error e (a ∷ []))
unfolding append_attr
append_attr-Shows a b b' e plain h = elim (Bool-cases (is_zero a)) [
  | inl zero ↦ rw (zero, is_zero-key a zero) (subst (Shows b) (sym (append-nil b')) h, refl)
  | inr set ↦ elim (Bool-cases (str_eq a.key (bytes "error"))) [
    | inl err ↦ rw (set, err) (subst (Shows b) (sym (append-nil b')) h, refl)
    | inr other ↦
        rw (set, other)
          (
            Shows-append h (
                Shows-blank (
                  Shows-colorize (a.key ++ (b'=' ∷ value_text a.value)) 8 (omega arith) (
                    All-append _ a.key (b'=' ∷ value_text a.value) plain.0
                      (omega arith, plain.1)))),
            refl,
          )
  ]
]

append_attrs-Shows :
    (attrs : List Attr) (b b' e : Bytes)
    → All IsPlainAttr attrs
    → Shows b b'
    → Shows (append_attrs attrs (b, e)).0 (b' ++ attrs_text attrs)
      × ((append_attrs attrs (b, e)).1 ≡ last_error e attrs)
unfolding append_attrs
append_attrs-Shows [] b b' e plain h = (subst (Shows b) (sym (append-nil b')) h, refl)
append_attrs-Shows (a ∷ attrs) b b' e plain h =
    let (one, err) = append_attr-Shows a b b' e plain.0 h in
    let (more, errs) =
      append_attrs-Shows attrs (append_attr a (b, e)).0 (b' ++ attr_text a) (append_attr a (b, e)).1
        plain.1 one in
    (
      subst (Shows _) (append_assoc b' (attr_text a) (attrs_text attrs)) more,
      errs ∙ ap (λ x. last_error x attrs) err,
    )

append_attrs-append :
    (xs ys : List Attr) (p : Bytes × Bytes)
    → append_attrs ys (append_attrs xs p) ≡ append_attrs (xs ++ ys) p
unfolding append_attrs
append_attrs-append [] ys p = refl
append_attrs-append (x ∷ xs) ys p = append_attrs-append xs ys (append_attr x p)

Shows-level : (l : ℕ) → Shows (format_level l) (level_name l)
unfolding format_level
Shows-level l = elim (Bool-cases (leb level_error l)) [
  | inl e ↦ rw e (Shows-colorize (bytes "ERR") 9 (omega arith) (omega arith))
  | inr e ↦ elim (Bool-cases (leb level_warn l)) [
    | inl w ↦ rw (e, w) (Shows-colorize (bytes "WRN") 11 (omega arith) (omega arith))
    | inr w ↦ elim (Bool-cases (leb level_info l)) [
      | inl i ↦ rw (e, w, i) (Shows-colorize (bytes "INF") 10 (omega arith) (omega arith))
      | inr i ↦ rw (e, w, i) (Shows-colorize (bytes "DBG") 8 (omega arith) (omega arith))
    ]
  ]
]

format_time-IsPlain : (t : ℕ) → IsPlain (format_time t)
format_time-IsPlain t = omega arith

Shows-head : (r : LogRecord) → IsPlain r.message → Shows (head_of r) (plain_head r)
unfolding head_of
Shows-head r h =
    Shows-append (Shows-colorize (format_time r.time) 7 (omega arith) (format_time-IsPlain r.time))
      (Shows-blank (Shows-append (Shows-level r.level) (Shows-blank (Shows-plain r.message h))))

Shows-error :
    {b b' : Bytes} (e : Bytes)
    → IsPlain e
    → Shows b b'
    → Shows (if is_empty e then b else b ++ (b' ' ∷ colorize e 1)) (b' ++ error_text e)
Shows-error {b} {b'} [] h hb = subst (Shows b) (sym (append-nil b')) hb
Shows-error (c ∷ e) h hb = Shows-append hb (Shows-blank (Shows-colorize (c ∷ e) 1 (omega arith) h))

last_error-IsPlain :
    (attrs : List Attr) (e : Bytes)
    → All IsPlainAttr attrs
    → IsPlain e
    → IsPlain (last_error e attrs)
last_error-IsPlain [] e h he = he
last_error-IsPlain (a ∷ attrs) e h he =
    last_error-IsPlain attrs _ h.1
      (if_elim IsPlain (str_eq a.key (bytes "error")) (value_text a.value) e (λ _. h.0.1) (λ _. he))

handle-Shows :
    (h : ColorHandler) (r : LogRecord)
    → IsPlain r.message
    → All IsPlainAttr (h.attrs ++ r.attrs)
    → Shows (handle h r) (plain_line (h.attrs ++ r.attrs) r)
unfolding handle
handle-Shows h r message plain =
    let attrs = h.attrs ++ r.attrs in
    let (text, err) =
      append_attrs-Shows attrs (head_of r) (plain_head r) [] plain (Shows-head r message) in
    rw (append_attrs-append h.attrs r.attrs (head_of r, []), err)
      (subst (Shows _)
        (append_assoc (plain_head r ++ attrs_text (h.attrs ++ r.attrs))
          (error_text (last_error [] attrs)) (b'\n' ∷ []))
        (Shows-append
          (Shows-error (last_error [] attrs) (last_error-IsPlain attrs [] plain tt) text)
          (Shows-plain (b'\n' ∷ []) (omega arith))))

-- What a terminal shows of a record is its plain line: the time, the level, the message, the
-- attributes of the handler and of the record in their order, and at the end the last error,
-- where no text of it holds an escape.
pub handle-plain :
    (h : ColorHandler) (r : LogRecord)
    → IsPlain r.message
    → All IsPlainAttr (h.attrs ++ r.attrs)
    → shown false (handle h r) ≡ plain_line (h.attrs ++ r.attrs) r
handle-plain h r message plain =
    ap (shown false) (sym (append-nil (handle h r)))
    ∙ (handle-Shows h r message plain).at []
    ∙ unfold shown in append-nil (plain_line (h.attrs ++ r.attrs) r)

-- ===== src/PolicyStore/Files.antt =====
-- `writeFileAtomic`. The calls of package os are the record `Os`, over any state `D` of the data
-- directory; a file is named within it, and an error is `some` text.
use qubership_authz_agent.Base.{
  Bytes, Option, none, some, Result, ok, err, ◌≡◌, ◌≢◌, refl, sym, subst, ◌∙◌,
}

abbrev pub Failure : Type 0
Failure = Option Bytes

pub record Os (D : Type 0) : Type 0 where
  pub mkdir_all : D → D × Failure
  pub create_temp : D → D × Result Bytes Bytes
  pub write : Bytes → Bytes → D → D × Failure
  pub close : Bytes → D → D × Failure
  pub chmod : Bytes → D → D × Failure
  pub rename : Bytes → Bytes → D → D × Failure
  pub remove : Bytes → D → D × Failure

-- What a write may leave: the new content at the path, or an error and the old content, and the
-- other files as they were.
abbrev pub IsAtomic :
    {D : Type 0}
    → (D → Bytes → Option Bytes)
    → (Bytes → Type 0)
    → Bytes
    → Bytes
    → D
    → D × Failure
    → Type 0
IsAtomic read IsTemp path content d (d', none) =
    (read d' path ≡ some content) × ((n : Bytes) → ¬ IsTemp n → n ≢ path → read d' n ≡ read d n)
IsAtomic read IsTemp path content d (d', some e) = (n : Bytes) → ¬ IsTemp n → read d' n ≡ read d n

module _ {D : Type 0} (os : Os D) where
  -- The step that fails gives its error, after the temp file is removed; else the next step follows.
  abbrev or_remove : Bytes → D × Failure → (D → D × Failure) → D × Failure
  or_remove name (d, none) next = next d
  or_remove name (d, some e) next = ((os.remove name d).0, some e)

  -- The same where the temp file is still open: it is closed first.
  abbrev or_close : Bytes → D × Failure → (D → D × Failure) → D × Failure
  or_close name (d, none) next = next d
  or_close name (d, some e) next = ((os.remove name (os.close name d).0).0, some e)

  -- What follows `os.CreateTemp`.
  unfoldable pub fill_temp : Bytes → Bytes → D × Result Bytes Bytes → D × Failure
  fill_temp path content (d, err e) = (d, some e)
  fill_temp path content (d, ok name) = or_close name (os.write name content d) λ d₁.
      or_remove name (os.close name d₁) λ d₂.
        or_remove name (os.chmod name d₂)
          λ d₃. or_remove name (os.rename name path d₃) λ d₄. (d₄, none)

  abbrev after_mkdir : Bytes → Bytes → D × Failure → D × Failure
  after_mkdir path content (d, some e) = (d, some e)
  after_mkdir path content (d, none) = fill_temp path content (os.create_temp d)

  -- `writeFileAtomic`
  unfoldable pub write_file_atomic : Bytes → Bytes → D → D × Failure
  unfolding fill_temp
  write_file_atomic path content d = after_mkdir path content (os.mkdir_all d)

  -- Documented behaviour of package os, by what a reader of the directory sees: `read d n` is the
  -- content of the file `n`. Temp names match the pattern of `CreateTemp`; only `Rename` changes what
  -- stands at another name, in one step, and not when it fails.
  pub record IsFileSystem (read : D → Bytes → Option Bytes) (IsTemp : Bytes → Type 0) : Type 0 where
    pub mkdir_keeps : (d : D) (n : Bytes) → read (os.mkdir_all d).0 n ≡ read d n
    pub create_is_temp : (d d' : D) (t : Bytes) → os.create_temp d ≡ (d', ok t) → IsTemp t
    pub create_keeps : (d : D) (n : Bytes) → ¬ IsTemp n → read (os.create_temp d).0 n ≡ read d n
    pub write_keeps :
        (t c : Bytes) (d : D) (n : Bytes) → n ≢ t → read (os.write t c d).0 n ≡ read d n
    pub write_reads : (t c : Bytes) (d d' : D) → os.write t c d ≡ (d', none) → read d' t ≡ some c
    pub close_keeps : (t : Bytes) (d : D) (n : Bytes) → read (os.close t d).0 n ≡ read d n
    pub chmod_keeps : (t : Bytes) (d : D) (n : Bytes) → read (os.chmod t d).0 n ≡ read d n
    pub rename_keeps :
        (t p : Bytes) (d : D) (n : Bytes) → n ≢ t → n ≢ p → read (os.rename t p d).0 n ≡ read d n
    pub rename_reads :
        (t p : Bytes) (d d' : D) → os.rename t p d ≡ (d', none) → read d' p ≡ read d t
    pub rename_fails :
        (t p : Bytes) (d d' : D) (e : Bytes) (n : Bytes)
        → os.rename t p d ≡ (d', some e)
        → n ≢ t
        → read d' n ≡ read d n
    pub remove_keeps : (t : Bytes) (d : D) (n : Bytes) → n ≢ t → read (os.remove t d).0 n ≡ read d n

  module _ (read : D → Bytes → Option Bytes) (IsTemp : Bytes → Type 0)
      (fs : IsFileSystem read IsTemp) (path content : Bytes) (proper : ¬ IsTemp path) where
    -- The state `d'` of the directory differs from `d` in temp files only.
    abbrev SameFiles : D → D → Type 0
    SameFiles d d' = (n : Bytes) → ¬ IsTemp n → read d' n ≡ read d n

    proper-ne : (n t : Bytes) → ¬ IsTemp n → IsTemp t → n ≢ t
    proper-ne n t h i e = h (subst IsTemp (sym e) i)

    -- The last two steps, with the temp file complete.
    renamed :
        (d d₃ : D) (t : Bytes)
        → IsTemp t
        → SameFiles d d₃
        → read d₃ t ≡ some content
        → (r : D × Failure) → os.rename t path d₃ ≡ r
        → IsAtomic read IsTemp path content d (or_remove t r λ d₄. (d₄, none))
    renamed d d₃ t i same full (d₄, none) e = (
      fs.rename_reads t path d₃ d₄ e ∙ full,
      λ n h p.
          subst (λ (x : D × Failure). read x.0 n ≡ read d n) e
            (fs.rename_keeps t path d₃ n (proper-ne n t h i) p ∙ same n h),
    )
    renamed d d₃ t i same full (d₄, some f) e = λ n h.
        let other = proper-ne n t h i in
        fs.remove_keeps t d₄ n other ∙ fs.rename_fails t path d₃ d₄ f n e other ∙ same n h

    changed :
        (d d₂ : D) (t : Bytes)
        → IsTemp t
        → SameFiles d d₂
        → read d₂ t ≡ some content
        → (r : D × Failure) → os.chmod t d₂ ≡ r
        → IsAtomic read IsTemp path content d
            (or_remove t r λ d₃. or_remove t (os.rename t path d₃) λ d₄. (d₄, none))
    changed d d₂ t i same full (d₃, none) e =
        let keeps : (n : Bytes) → read d₃ n ≡ read d₂ n =
          λ n. subst (λ (x : D × Failure). read x.0 n ≡ read d₂ n) e (fs.chmod_keeps t d₂ n) in
        renamed d d₃ t i (λ n h. keeps n ∙ same n h) (keeps t ∙ full) (os.rename t path d₃) refl
    changed d d₂ t i same full (d₃, some f) e = λ n h.
        fs.remove_keeps t d₃ n (proper-ne n t h i)
        ∙ subst (λ (x : D × Failure). read x.0 n ≡ read d₂ n) e (fs.chmod_keeps t d₂ n)
        ∙ same n h

    closed :
        (d d₁ : D) (t : Bytes)
        → IsTemp t
        → SameFiles d d₁
        → read d₁ t ≡ some content
        → (r : D × Failure) → os.close t d₁ ≡ r
        → IsAtomic read IsTemp path content d (
            or_remove t r λ d₂.
              or_remove t (os.chmod t d₂) λ d₃. or_remove t (os.rename t path d₃) λ d₄. (d₄, none))
    closed d d₁ t i same full (d₂, none) e =
        let keeps : (n : Bytes) → read d₂ n ≡ read d₁ n =
          λ n. subst (λ (x : D × Failure). read x.0 n ≡ read d₁ n) e (fs.close_keeps t d₁ n) in
        changed d d₂ t i (λ n h. keeps n ∙ same n h) (keeps t ∙ full) (os.chmod t d₂) refl
    closed d d₁ t i same full (d₂, some f) e = λ n h.
        fs.remove_keeps t d₂ n (proper-ne n t h i)
        ∙ subst (λ (x : D × Failure). read x.0 n ≡ read d₁ n) e (fs.close_keeps t d₁ n)
        ∙ same n h

    written :
        (d d₀ : D) (t : Bytes)
        → IsTemp t
        → SameFiles d d₀
        → (r : D × Failure) → os.write t content d₀ ≡ r
        → IsAtomic read IsTemp path content d (
            or_close t r λ d₁. or_remove t (os.close t d₁) λ d₂.
              or_remove t (os.chmod t d₂) λ d₃. or_remove t (os.rename t path d₃) λ d₄. (d₄, none))
    written d d₀ t i same (d₁, none) e =
        closed d d₁ t i
          (λ n h.
            subst (λ (x : D × Failure). read x.0 n ≡ read d₀ n) e
              (fs.write_keeps t content d₀ n (proper-ne n t h i))
            ∙ same n h)
          (fs.write_reads t content d₀ d₁ e) (os.close t d₁) refl
    written d d₀ t i same (d₁, some f) e = λ n h.
        let other = proper-ne n t h i in
        fs.remove_keeps t (os.close t d₁).0 n other
        ∙ fs.close_keeps t d₁ n
        ∙ subst (λ (x : D × Failure). read x.0 n ≡ read d₀ n) e
            (fs.write_keeps t content d₀ n other)
        ∙ same n h

    created :
        (d d₀ : D)
        → SameFiles d d₀
        → (r : D × Result Bytes Bytes) → os.create_temp d₀ ≡ r
        → IsAtomic read IsTemp path content d (fill_temp path content r)
    unfolding fill_temp
    created d d₀ same (d₁, err f) e = λ n h.
        subst (λ (x : D × Result Bytes Bytes). read x.0 n ≡ read d₀ n) e (fs.create_keeps d₀ n h)
        ∙ same n h
    created d d₀ same (d₁, ok t) e =
        written d d₁ t (fs.create_is_temp d₀ d₁ t e)
          (λ n h.
            subst (λ (x : D × Result Bytes Bytes). read x.0 n ≡ read d₀ n) e
              (fs.create_keeps d₀ n h)
            ∙ same n h)
          (os.write t content d₁) refl

    made :
        (d : D) (r : D × Failure)
        → os.mkdir_all d ≡ r
        → IsAtomic read IsTemp path content d (after_mkdir path content r)
    made d (d₀, none) e =
        created d d₀
          (λ n h. subst (λ (x : D × Failure). read x.0 n ≡ read d n) e (fs.mkdir_keeps d n))
          (os.create_temp d₀) refl
    made d (d₀, some f) e =
        λ n h. subst (λ (x : D × Failure). read x.0 n ≡ read d n) e (fs.mkdir_keeps d n)

    -- On a file system as documented, `writeFileAtomic` to a path that is no temp name leaves the whole
    -- content at the path and the other files as they were, or, with an error, every file as it was.
    pub write_file_atomic-IsAtomic :
        (d : D) → IsAtomic read IsTemp path content d (write_file_atomic path content d)
    unfolding write_file_atomic
    write_file_atomic-IsAtomic d = made d (os.mkdir_all d) refl

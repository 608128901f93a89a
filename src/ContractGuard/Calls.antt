-- ===== src/ContractGuard/Calls.antt =====
-- How contract_guard.py takes a call of git apart.
use text.Mathlib.Text.{starts_with}
use youk.Prelude.Memᴰ
use youk.Prelude.{
  String, Bool, true, false, not, Option, none, some, List, [], ◌∷◌, ◌++◌, ◌==◌, select, select-mem,
  mem-select, ◌≡◌, ◌≢◌, inl, inr, refl, sym, ap, subst, arith, eq_iff, Memᴰ, Bool-cases,
}
use youk.ContractGuard.Words.{Shell, GitCall, git_options, pushed_refs}
use youk.ContractGuard.Segments.{git_call, where_of}
use youk.ContractGuard.Forbidden.{
  IsOption, IsWord, Options, subcommand, directory, setting, other, NamesRef, IsGit, is_git,
  WorksIn, here, blank, there,
}

other_text : (a b : String) → (a == b) ≡ false → a ≢ b
other_text a b h = λ e. let h' = (eq_iff a b).1 e in cc (h, h')

git_options-Options :
    (tokens : List String) (d : Option String) {c : GitCall}
    → git_options tokens d ≡ some c
    → Options tokens d c
unfolding git_options
git_options-Options [] d e = cc e
git_options-Options (t ∷ []) d {c} e = elim (Bool-cases (starts_with t "-")) [
  | inl opt ↦ let h : none ≡ some c = rw opt at e in cc h
  | inr word ↦
      let h : some (record { sub = t; args = []; directory = d }) ≡ some c = rw word at e in
      subst (Options (t ∷ []) d) (cc h) (subcommand word)
]
git_options-Options (t ∷ u ∷ rest) d {c} e = elim (Bool-cases (t == "-C")) [
  | inl dir ↦
      directory ((eq_iff t "-C").0 dir)
        (git_options-Options rest (some u) (rw (git_options, dir) at e))
  | inr no_dir ↦ elim (Bool-cases (t == "-c")) [
    | inl set ↦
        setting ((eq_iff t "-c").0 set)
          (git_options-Options rest d (rw (git_options, no_dir, set) at e))
    | inr no_set ↦ elim (Bool-cases (starts_with t "-")) [
      | inl opt ↦
          other opt (other_text t "-C" no_dir) (other_text t "-c" no_set)
            (git_options-Options (u ∷ rest) d (rw (git_options, no_dir, no_set, opt) at e))
      | inr word ↦
          let h : some (record { sub = t; args = u ∷ rest; directory = d }) ≡ some c =
            rw (git_options, no_dir, no_set, word) at e in
          subst (Options (t ∷ u ∷ rest) d) (cc h) (subcommand word)
    ]
  ]
]

word_other : (t o : String) → IsWord t → IsOption o → (t == o) ≡ false
word_other t o word opt = elim (Bool-cases (t == o)) [
  | inr h ↦ h
  | inl h ↦
      let e = (eq_iff t o).0 h in
      let opt' : starts_with t "-" ≡ true = subst (λ x. starts_with x "-" ≡ true) (sym e) opt in
      cc (word, opt')
]

differs : (a b : String) → a ≢ b → (a == b) ≡ false
differs a b h = ground (arith, eq_iff a b)

Options-git_options :
    {tokens : List String} {d : Option String} {c : GitCall}
    → Options tokens d c
    → git_options tokens d ≡ some c
unfolding git_options
Options-git_options (subcommand {t = t} {rest = []} word) = rw word refl
Options-git_options (subcommand {t = t} {rest = u ∷ rest} word) =
    rw (git_options, word_other t "-C" word refl, word_other t "-c" word refl, word) refl
Options-git_options (directory {t = t} {u = u} {rest = rest} e o) =
    rw (git_options, (eq_iff t "-C").1 e) (Options-git_options o)
Options-git_options (setting {t = t} {u = u} {rest = rest} e o) =
    let away : (t == "-C") ≡ false = subst (λ x. (x == "-C") ≡ false) (sym e) refl in
    rw (git_options, away, (eq_iff t "-c").1 e) (Options-git_options o)
Options-git_options (other {t = t} {rest = []} opt a b o) = elim o [ ]
Options-git_options (other {t = t} {rest = u ∷ rest} opt a b o) =
    rw (git_options, differs t "-C" a, differs t "-c" b, opt) (Options-git_options o)

NamesRef-skip :
    {args : List String} {ref a : String} → IsOption a → NamesRef args ref → NamesRef (a ∷ args) ref
NamesRef-skip {a = a} opt n = record {
  before = a ∷ n.before;
  remote = n.remote;
  after = n.after;
  split = ap (λ l. a ∷ l) n.split;
  options = λ x i. elim (Memᴰ.cases_cons i) [
    | inl e ↦ subst IsOption (sym e) opt
    | inr j ↦ n.options x j
  ];
  word = n.word;
  among = n.among;
  is_ref = n.is_ref;
}

abbrev plain : String → Bool
plain a = not (starts_with a "-")

pub pushed_refs-NamesRef :
    (args : List String) {ref : String} → Memᴰ ref (pushed_refs args) → NamesRef args ref
unfolding pushed_refs select
pushed_refs-NamesRef [] i = elim i [ ]
pushed_refs-NamesRef (a ∷ args) {ref} i = elim (Bool-cases (starts_with a "-")) [
  | inl opt ↦ NamesRef-skip opt (pushed_refs-NamesRef args (rw opt at i))
  | inr word ↦
      let j : Memᴰ ref (select plain args) = rw word at i in
      let (m, p) = select-mem plain args j in
      record {
        before = [];
        remote = a;
        after = args;
        split = refl;
        options = λ x k. elim k [ ];
        word = word;
        among = m;
        is_ref = ground arith;
      }
]

refs_after :
    (before : List String) (remote : String) (after : List String)
    → ((a : String) → Memᴰ a before → IsOption a)
    → IsWord remote
    → pushed_refs (before ++ remote ∷ after) ≡ select plain after
unfolding pushed_refs select
refs_after [] remote after options word = rw word refl
refs_after (a ∷ before) remote after options word =
    rw (options a (Memᴰ.head refl))
      (refs_after before remote after (λ x i. options x (Memᴰ.tail i)) word)

pub NamesRef-pushed_refs :
    (args : List String) {ref : String} → NamesRef args ref → Memᴰ ref (pushed_refs args)
NamesRef-pushed_refs args {ref} n =
    subst (λ l. Memᴰ ref (pushed_refs l)) (sym n.split)
      (subst (Memᴰ ref) (sym (refs_after n.before n.remote n.after n.options n.word))
        (mem-select plain n.after n.among (ap not n.is_ref)))

module _ (shell : Shell) (cwd : String) where
  pub git_call-IsGit :
      (tokens : List String) {c : GitCall}
      → git_call shell tokens ≡ some c
      → IsGit shell cwd tokens c
  unfolding git_call
  git_call-IsGit [] e = cc e
  git_call-IsGit (name ∷ rest) {c} e = elim (Bool-cases (shell.basename name == "git")) [
    | inl named ↦
        is_git ((eq_iff (shell.basename name) "git").0 named)
          (git_options-Options rest none (rw named at e))
    | inr away ↦ let h : none ≡ some c = rw away at e in cc h
  ]

  pub IsGit-git_call :
      {tokens : List String} {c : GitCall}
      → IsGit shell cwd tokens c
      → git_call shell tokens ≡ some c
  unfolding git_call
  IsGit-git_call (is_git {name = name} {rest = rest} named o) =
      rw ((eq_iff (shell.basename name) "git").1 named) (Options-git_options o)

  pub where_of-WorksIn : (d : Option String) → WorksIn shell cwd d (where_of shell cwd d)
  where_of-WorksIn none = here
  where_of-WorksIn (some d) = elim (Bool-cases (d == "")) [
    | inl h ↦ rw h (blank ((eq_iff d "").0 h))
    | inr h ↦ rw h (there (other_text d "" h))
  ]

  pub WorksIn-where_of :
      {d : Option String} {dir : String} → WorksIn shell cwd d dir → where_of shell cwd d ≡ dir
  WorksIn-where_of here = refl
  WorksIn-where_of (blank {d = d} e) = rw ((eq_iff d "").1 e) refl
  WorksIn-where_of (there {d = d} h) = rw (differs d "" h) refl

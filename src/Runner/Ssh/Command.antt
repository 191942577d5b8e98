-- ===== src/Runner/Ssh/Command.antt =====
-- What a POSIX shell reads in the command that is run over SSH.
use Prim.Native.String.{[], ◌∷◌}
use Prim.Native.String
use Prim.Native.String.append
use task_fence.Prelude.{
  Char, code, String, ◌≡◌, refl, ap, subst, ◌∙◌, map, ℕ, true, Bool-cases, inl, inr, arith, Option,
  some, List,
}
use task_fence.Std.Split.{is_char}
use text.Mathlib.TextLemmas.{append-nil, append_assoc}
use text.Mathlib.TextEquality.{Char-path}
use task_fence.Runner.Ssh.{reject_ssh_arg, escape_quotes, shell_quote, quote_all, remote_command}
use task_fence.Std.Format.{format, join}
use task_fence.Runner.Docker.Args.{words}
use task_fence.Core.Event.{AgentInvocation, PreparedSshRun}
use task_fence.Core.Error.{ok, bind-eq-ok, ok_injective}
use task_fence.Runner.Ssh.Words.{Token, and_then, word, blank, bare, quoted, put, read_words}

-- The characters of a text before the word that is read after it.
abbrev prepend : String → Option (List Token) → Option (List Token)
prepend [] tokens = tokens
prepend (c ∷ s) tokens = put c (prepend s tokens)

prepend-word :
    (v : String) (tokens : List Token)
    → prepend v (some (List.◌∷◌ (word []) tokens)) ≡ some (List.◌∷◌ (word v) tokens)
prepend-word [] tokens = refl
prepend-word (c ∷ v) tokens = ap (put c) (prepend-word v tokens)

is_char-eq : (n : ℕ) (c : Char) → is_char n c ≡ true → code c ≡ n
is_char-eq n c h = ground arith

-- In quotes, an escaped text is read as the text, up to the quote that ends it.
read-escape_quotes :
    (v rest : String)
    → read_words quoted (String.◌++◌ (escape_quotes v) ("'" ∷ rest))
      ≡ prepend v (read_words bare rest)
unfolding read_words escape_quotes
read-escape_quotes [] rest = rw (append.nil ("'" ∷ rest)) refl
read-escape_quotes (c ∷ v) rest = elim (Bool-cases (is_char b'\'' c)) [
  | inl quote ↦ rw (Char-path c "'" (is_char-eq b'\'' c quote)) (
      rw append.cons (
        rw append.cons
          (rw append.cons (rw append.cons (ap (put "'") (read-escape_quotes v rest))))))
  | inr other ↦ rw other (rw append.cons (rw other (ap (put c) (read-escape_quotes v rest))))
]

-- What is read from a quoted text is the text.
module _ (v q : String) (e : shell_quote v ≡ ok q) where
  shell_quote-append :
      (rest : String) → String.◌++◌ q rest ≡ "'" ∷ String.◌++◌ (escape_quotes v) ("'" ∷ rest)
  unfolding shell_quote format
  shell_quote-append rest =
      let (u, valid, e1) = bind-eq-ok (reject_ssh_arg "remote shell argument" v) _ e in
      subst (λ q. String.◌++◌ q rest ≡ "'" ∷ String.◌++◌ (escape_quotes v) ("'" ∷ rest))
        (ok_injective e1)
        (rw (append.cons "'" []) (
          rw append.nil (
            rw (append.cons "'" (String.◌++◌ (escape_quotes v) "'") rest)
              (rw append_assoc (rw (append.cons "'" [] rest) (rw append.nil refl))))))

  read-shell_quote :
      (rest : String) → read_words blank (String.◌++◌ q rest) ≡ prepend v (read_words bare rest)
  unfolding read_words
  read-shell_quote rest = rw (shell_quote-append rest) (read-escape_quotes v rest)

  read-quoted_last : read_words blank q ≡ some (List.◌∷◌ (word v) List.[])
  unfolding read_words
  read-quoted_last =
      subst (λ q. read_words blank q ≡ some (List.◌∷◌ (word v) List.[])) (append-nil q)
        (read-shell_quote [] ∙ prepend-word v List.[])

  read-quoted_then :
      (rest : String) (tokens : List Token)
      → read_words blank rest ≡ some tokens
      → read_words blank (String.◌++◌ q (" " ∷ rest)) ≡ some (List.◌∷◌ (word v) tokens)
  unfolding read_words
  read-quoted_then rest tokens r = read-shell_quote (" " ∷ rest) ∙ rw r (prepend-word v tokens)

-- The quoted arguments, joined, are read as the arguments.
read-quote_all :
    (exe part : String) (args parts : List String)
    → shell_quote exe ≡ ok part
    → quote_all args ≡ ok parts
    → read_words blank (join " " (List.◌∷◌ part parts)) ≡ some (map word (List.◌∷◌ exe args))
unfolding quote_all join
read-quote_all exe part List.[] List.[] e f = read-quoted_last exe part e
read-quote_all exe part List.[] (List.◌∷◌ p ps) e f = cc f
read-quote_all exe part (List.◌∷◌ arg args) parts e f =
    let (p, e1, f1) = bind-eq-ok (shell_quote arg) _ f in
    let (ps, f2, f3) = bind-eq-ok (quote_all args) _ f1 in
    subst
      (λ parts.
        read_words blank (join " " (List.◌∷◌ part parts))
        ≡ some (map word (List.◌∷◌ exe (List.◌∷◌ arg args))))
      (ok_injective f3)
      (rw (append.cons " " "" (join " " (List.◌∷◌ p ps))) (
        rw append.nil (
          read-quoted_then exe part e (join " " (List.◌∷◌ p ps)) _
            (read-quote_all arg p args ps e1 f2))))

-- What is read from the text around the workspace and the agent's command.
module _ (rest : String) (tokens : List Token) (r : read_words blank rest ≡ some tokens) where
  read-cd : read_words blank (String.◌++◌ "cd " rest) ≡ some (List.◌∷◌ (word "cd") tokens)
  unfolding read_words
  read-cd =
      rw (append.cons "c" "d " rest)
        (rw (append.cons "d" " " rest) (rw (append.cons " " [] rest) (rw append.nil (rw r refl))))

  read-exec :
      read_words blank (String.◌++◌ "&& exec " rest)
      ≡ some (List.◌∷◌ and_then (List.◌∷◌ (word "exec") tokens))
  unfolding read_words
  read-exec = rw (append.cons "&" "& exec " rest) (
      rw (append.cons "&" " exec " rest) (
        rw (append.cons " " "exec " rest) (
          rw (append.cons "e" "xec " rest) (
            rw (append.cons "x" "ec " rest) (
              rw (append.cons "e" "c " rest) (
                rw (append.cons "c" " " rest)
                  (rw (append.cons " " [] rest) (rw append.nil (rw r refl)))))))))

read-framed :
    (v q joined : String) (tokens : List Token)
    → shell_quote v ≡ ok q
    → read_words blank joined ≡ some tokens
    → read_words blank (format (List.◌∷◌ "cd " (List.◌∷◌ q (words " && exec " joined))))
      ≡ some (
          List.◌∷◌
            (word "cd")
            (List.◌∷◌ (word v) (List.◌∷◌ and_then (List.◌∷◌ (word "exec") tokens))))
unfolding format
read-framed v q joined tokens e r = rw (append-nil joined) (
    rw (append.cons " " "&& exec " joined)
      (read-cd _ _ (read-quoted_then v q e _ _ (read-exec joined tokens r))))

-- The command that a run over SSH gives the remote host is read there, by a POSIX shell, as `cd` with the
-- prepared workspace, and then `exec` with the agent's executable and its arguments: each is one word,
-- whatever characters it has, and nothing else is read.
pub remote_command-read_words :
    (ssh : PreparedSshRun) (invocation : AgentInvocation) (command : String)
    → remote_command ssh invocation ≡ ok command
    → read_words blank command
      ≡ some (
          List.◌∷◌ (word "cd") (
            List.◌∷◌ (word ssh.workspace) (
              List.◌∷◌ and_then (
                List.◌∷◌
                  (word "exec")
                  (map word (List.◌∷◌ invocation.executable invocation.args))))))
unfolding remote_command
remote_command-read_words ssh invocation command e =
    let (part, p, e1) = bind-eq-ok (shell_quote invocation.executable) _ e in
    let (parts, ps, e2) = bind-eq-ok (quote_all invocation.args) _ e1 in
    let (workspace, w, e3) = bind-eq-ok (shell_quote ssh.workspace) _ e2 in
    subst
      (λ command.
        read_words blank command
        ≡ some (
            List.◌∷◌ (word "cd") (
              List.◌∷◌ (word ssh.workspace) (
                List.◌∷◌ and_then (
                  List.◌∷◌ (word "exec")
                    (map word (List.◌∷◌ invocation.executable invocation.args)))))))
      (ok_injective e3)
      (read-framed ssh.workspace workspace _ _ w
        (read-quote_all invocation.executable part invocation.args parts p ps))

-- ===== src/Mapping/Buttons.antt =====
-- Which buttons are disabled.
pub mod Runs
use Prim.Native.Nat.{ℕ}
use mathlib.Core.Path.{◌≡◌, refl, sym, ap, ◌∙◌}
use mathlib.Core.Logic.{inl, inr}
use mathlib.Core.Bool.{Bool, true, false}
use mathlib.Core.Option.{Option, none, some}
use mathlib.Core.List.{List}
use inroa.Base.{
  Text, codes, ◌==◌, ==_iff, text_eq, int_text, Bool-cases, Result, ok, throws, resume, get, modify,
}
use inroa.Base.Policy.{Policy, invariant_policy, Keeps, >>=-Keeps, get-Keeps}
use inroa.Page.{Element, Page, delete_row}
use inroa.Mapping.{State, delete_linha, remove_linha}
use inroa.Mapping.Handlers.{set_disabled}
use inroa.Mapping.Rows.{insert_row, count_up, new_row, row_class, composto_row}
use inroa.Mapping.Walk.{Steps}

-- No button is disabled but the one of the last edit.
unfoldable pub OnlyBotao : State → Type 0
OnlyBotao s = (b : ℕ) → s.is_disabled b ≡ true → s.botao ≡ some b

some-injective : {a b : ℕ} → some a ≡ some b → a ≡ b
some-injective e = cc

-- Enabling the button of the last edit enables all.
enabled : (s : State) (b : ℕ) → OnlyBotao s → (set_disabled false s).is_disabled b ≡ false
unfolding OnlyBotao
enabled s b h = by_botao s.botao refl
  where
    by_botao : (o : Option ℕ) → s.botao ≡ o → (set_disabled false s).is_disabled b ≡ false
    by_botao none e = elim (Bool-cases (s.is_disabled b)) [
      | inl t ↦ cc (h b t)
      | inr f ↦ rw (set_disabled, e) f
    ]
    by_botao (some last) e = elim (Bool-cases (b == last)) [
      | inl same ↦ rw (set_disabled, e, same) refl
      | inr other ↦ elim (Bool-cases (s.is_disabled b)) [
        | inl t ↦
            let same : b ≡ last = some-injective (sym (h b t) ∙ e) in
            let yes : (b == last) ≡ true = (==_iff b last).1 same in cc
        | inr f ↦ rw (set_disabled, e, other) f
      ]
    ]

disabled-OnlyBotao : (s : State) → OnlyBotao s → OnlyBotao (set_disabled false s)
unfolding OnlyBotao
disabled-OnlyBotao s h b t =
    let on : (set_disabled false s).is_disabled b ≡ true = t in
    let off : (set_disabled false s).is_disabled b ≡ false = enabled s b h in cc

-- A new edit: its button is disabled, all others are enabled.
exibe-OnlyBotao :
    (bot : ℕ) (s : State)
    → OnlyBotao s
    → OnlyBotao (set_disabled true (record (set_disabled false s) { botao = some bot }))
unfolding OnlyBotao
exibe-OnlyBotao bot s h b t = elim (Bool-cases (b == bot)) [
  | inl same ↦ ap some (sym ((==_iff b bot).0 same))
  | inr other ↦
      let on : (set_disabled false s).is_disabled b ≡ true = rw other at t in
      let off : (set_disabled false s).is_disabled b ≡ false = enabled s b h in cc
]

-- The state after a call has the buttons of the one before.
pub same-OnlyBotao :
    (s t : State) → t.botao ≡ s.botao → t.is_disabled ≡ s.is_disabled → OnlyBotao s → OnlyBotao t
unfolding OnlyBotao
same-OnlyBotao s t botao is_disabled h = rw (botao, is_disabled) h

abbrev pub botao_policy : Policy State
botao_policy = invariant_policy OnlyBotao

botao_insert_row : (row : List Element) → Keeps botao_policy (insert_row row)
botao_insert_row row = record {
  allows = λ s h. elim (Bool-cases (text_eq (codes "tabela") s.page.table_id)) [
    | inl named ↦ rw named (same-OnlyBotao s _ refl refl h)
    | inr other ↦ rw other h
  ];
}

botao_drop : (nome_tabela : Text) (linha : ℕ) → Keeps botao_policy (delete_linha nome_tabela linha)
botao_drop nome_tabela linha = record {
  allows = λ s h. by_result s h (delete_row nome_tabela linha s.page);
}
  where
    by_result :
        (s : State)
        → OnlyBotao s
        → (r : Result Page)
        → OnlyBotao (resume (λ page. modify λ t. record t { page = page }) (r, s)).1
    by_result s h (throws f) = h
    by_result s h (ok page) = same-OnlyBotao s _ refl refl h

botao_modify :
    (f : State → State)
    → ((s : State) → ((f s).botao ≡ s.botao) × ((f s).is_disabled ≡ s.is_disabled))
    → Keeps botao_policy (modify f)
botao_modify f same = record { allows = λ s h. same-OnlyBotao s (f s) (same s).0 (same s).1 h }

pub botao_policy-Steps : Steps botao_policy
unfolding remove_linha count_up
botao_policy-Steps = record {
  apart = λ f same. botao_modify f (λ s. ((same s).2, (same s).3));
  update = λ node f keeps. botao_modify _ (λ s. (refl, refl));
  enable = record { allows = λ s h. disabled-OnlyBotao s h };
  exibe = λ bot. record { allows = λ s h. exibe-OnlyBotao bot s h };
  insert_new = λ linha_real k hk.
      >>=-Keeps (modify count_up) _ (botao_modify _ (λ s. (refl, refl))) λ _.
        >>=-Keeps get _ get-Keeps λ s.
          >>=-Keeps (insert_row (new_row (int_text s.totals) linha_real (row_class s))) _
            (botao_insert_row _) λ _. hk s;
  insert_composto = λ linha. botao_insert_row (composto_row linha);
  drop = λ linha. botao_drop (codes "tabela") linha;
  remove = λ nome_tabela linha.
      >>=-Keeps (delete_linha nome_tabela linha) _ (botao_drop nome_tabela linha)
        λ _. botao_modify _ (λ s. (refl, refl));
}

-- ===== src/Mapping/Walk.antt =====
-- What the calls of the editor do, from what the steps do that they are made of: the interface of a
-- policy, and the calls that it gives.
pub mod Events
use Prim.Native.Nat.{ℕ}
use mathlib.Core.Path.{◌≡◌, refl}
use mathlib.Core.Bool.{Bool, true, false}
use mathlib.Core.Option.{Option, none, some}
use mathlib.Core.List.{List, [], ◌∷◌, ◌++◌}
use inroa.Base.{
  Text, codes, ◌==◌, parse_int, is_positive, int_text, ok, ◌>>=◌, ◌>>◌, get, modify, some_or_fail,
}
use inroa.Base.Policy.{
  Policy, Keeps, >>=-Keeps, get-Keeps, done-Keeps, some_or_fail-Keeps, if-Keeps, read-Keeps,
}
use inroa.Page.{Element, all_elements, find_field, update_page, set_html, set_on_click}
use inroa.Page.Elements.{KeepsId, set_html-KeepsId, set_on_click-KeepsId}
use inroa.Update.{Transport, open_ajax, Change}
use inroa.Mapping.{
  Request, State, Run, Acao, mostrar, salvar, excluir, by_id, element, field, show, send,
  delete_linha, remove_linha, show_excluido, after_response, on_ready_state_change,
}
use inroa.Mapping.Handlers.{set_disabled, processo}
use inroa.Mapping.Rows.{insert_row, new_row, composto_row, row_class, count_up, hook}

-- A change of the variables other than `totals` and the button, of the requests, or of what the user
-- is told.
abbrev pub IsApart : (State → State) → Type 0
IsApart f =
    (s : State)
    → ((f s).page ≡ s.page)
      × ((f s).totals ≡ s.totals)
      × ((f s).botao ≡ s.botao)
      × ((f s).is_disabled ≡ s.is_disabled)

-- The steps that a policy has to allow.
pub record Steps (p : Policy State) : Type 0 where
  pub apart : (f : State → State) → IsApart f → Keeps p (modify f)
  pub update :
      (node : ℕ) (f : Element → Element)
      → KeepsId f
      → Keeps p (modify λ s. record s { page = update_page node f s.page })
  pub enable : Keeps p (modify (set_disabled false))
  pub exibe :
      (bot : ℕ)
      → Keeps p (modify λ s. set_disabled true (record (set_disabled false s) { botao = some bot }))
  pub insert_new :
      (linha_real : ℕ) (k : State → Run Unit)
      → ((s : State) → Keeps p (k s))
      → Keeps p (
          modify count_up
          >> (get >>= λ s.
              insert_row (new_row (int_text s.totals) linha_real (row_class s)) >> k s))
  pub insert_composto : (linha : ℕ) → Keeps p (insert_row (composto_row linha))
  pub drop : (linha : ℕ) → Keeps p (delete_linha (codes "tabela") linha)
  pub remove : (nome_tabela : Text) (linha : ℕ) → Keeps p (remove_linha nome_tabela linha)

pub element-Keeps : {p : Policy State} (id : Text) → Keeps p (element id)
element-Keeps id = read-Keeps λ s. by_id id s.page

field-Keeps : {p : Policy State} (id : Text) → Keeps p (field id)
field-Keeps id = read-Keeps λ s. find_field id (all_elements s.page)

module _ {p : Policy State} (steps : Steps p) where
  show-Keeps :
      (fields_of : Text → List (Text × Text)) (target : Option ℕ) (html : Text)
      → Keeps p (show fields_of target html)
  show-Keeps fields_of none html = some_or_fail-Keeps {A = Unit} none
  show-Keeps fields_of (some node) html =
      steps.update node (set_html fields_of html) (set_html-KeepsId fields_of html)

  hook-Keeps : (o : Option (Text × Element)) → Keeps p (hook o)
  hook-Keeps none = some_or_fail-Keeps {A = Unit} none
  hook-Keeps (some (value, x)) = steps.update x.node set_on_click set_on_click-KeepsId

  send-Keeps :
      (has : Transport → Bool) (id_resultado : Text) (acao : Acao) (url : Text)
      → Keeps p (send has id_resultado acao url)
  unfolding send
  send-Keeps has id_resultado acao url = record {
    allows = λ s.
        (>>=-Keeps (some_or_fail (open_ajax has)) _ (some_or_fail-Keeps (open_ajax has))
            λ _. steps.apart _ (λ t. (refl, refl, refl, refl))).allows
          s;
  }

  pub processo-Keeps :
      (has : Transport → Bool) (id_resultado id acao novo_valor valor_anterior id_tipo : Text)
      → Keeps p (processo has id_resultado id acao novo_valor valor_anterior id_tipo)
  unfolding processo
  processo-Keeps has id_resultado id acao novo_valor valor_anterior id_tipo =
      send-Keeps has id_resultado mostrar _

  show_excluido-Keeps :
      (fields_of : Text → List (Text × Text)) (target : Option ℕ) (id_tabela : Text) (linha : ℕ)
      (text : Text) (n : Option (Bool × ℕ))
      → Keeps p (show_excluido fields_of target id_tabela linha text n)
  show_excluido-Keeps fields_of target id_tabela linha text none = show-Keeps fields_of target text
  show_excluido-Keeps fields_of target id_tabela linha text (some m) =
      if-Keeps (is_positive m) _ _
        (>>=-Keeps (show fields_of target (codes "Exclu&iacute;do com sucesso.")) _
          (show-Keeps fields_of target (codes "Exclu&iacute;do com sucesso."))
          λ _. steps.remove id_tabela linha)
        (show-Keeps fields_of target _)

  after_response-Keeps :
      (fields_of : Text → List (Text × Text)) (target : Option ℕ) (text : Text) (acao : Acao)
      → Keeps p (after_response fields_of target text acao)
  after_response-Keeps fields_of target text mostrar = show-Keeps fields_of target text
  after_response-Keeps fields_of target text salvar = steps.apart _ (λ t. (refl, refl, refl, refl))
  after_response-Keeps fields_of target text (excluir id_tabela linha) =
      show_excluido-Keeps fields_of target id_tabela linha text (parse_int text)

  change-Keeps :
      (fields_of : Text → List (Text × Text)) (request : Request) (change : Change)
      → Keeps p (on_ready_state_change fields_of request change)
  unfolding on_ready_state_change
  change-Keeps fields_of request change =
      if-Keeps (change.ready_state == 1) _ _ (show-Keeps fields_of request.target _) (
        if-Keeps (change.ready_state == 4) _ _
          (if-Keeps (change.status == 200) _ _
            (after_response-Keeps fields_of request.target change.response_text request.acao)
            (show-Keeps fields_of request.target _))
          done-Keeps)

-- ===== src/MultiAgent/Bus.antt =====
-- `MessageBus` of backend/app/multi_agent/message_bus.py.
--
-- A handler changes a state `W` of its own; it does not publish in turn. Message ids are left out.
use enterprise_ai_agent.Prelude.{Bool, none, some, List, [], ◌∷◌, ◌++◌, String}
use enterprise_ai_agent.Prelude.TextDict.{TextDict, lookup, insert}
use enterprise_ai_agent.Workflow.Node.{Value, bool}

pub data MessageType : Type 0 where
  request response broadcast : MessageType

pub record AgentMessage : Type 0 where
  pub sender : String
  pub receiver : String
  pub payload : TextDict Value
  pub message_type : MessageType
  pub correlation_id : String

unfoldable pub create_request : String → String → TextDict Value → String → AgentMessage
create_request sender receiver payload correlation_id = record {
  sender = sender;
  receiver = receiver;
  payload = payload;
  message_type = MessageType.request;
  correlation_id = correlation_id;
}

unfoldable pub create_response : String → String → TextDict Value → String → Bool → AgentMessage
create_response sender receiver payload correlation_id success = record {
  sender = sender;
  receiver = receiver;
  payload = insert "success" (bool success) payload;
  message_type = MessageType.response;
  correlation_id = correlation_id;
}

unfoldable pub create_broadcast : String → TextDict Value → AgentMessage
create_broadcast sender payload = record {
  sender = sender;
  receiver = "*";
  payload = payload;
  message_type = MessageType.broadcast;
  correlation_id = "";
}

pub record MessageBus (W : Type 0) : Type 0 where
  pub handlers : TextDict (List (AgentMessage → W → W))
  pub history : List AgentMessage

module _ {W : Type 0} where
  abbrev handlers_of : String → MessageBus W → List (AgentMessage → W → W)
  handlers_of name bus = elim (lookup name bus.handlers) [ none ↦ [] | some hs ↦ hs ]

  unfoldable pub subscribe : String → (AgentMessage → W → W) → MessageBus W → MessageBus W
  subscribe agent_name handler bus = record bus {
    handlers = insert agent_name (handlers_of agent_name bus ++ (handler ∷ [])) bus.handlers;
  }

  unfoldable pub deliver : List (AgentMessage → W → W) → AgentMessage → W → W
  deliver [] message w = w
  deliver (handler ∷ handlers) message w = deliver handlers message (handler message w)

  unfoldable pub deliver_all : TextDict (List (AgentMessage → W → W)) → AgentMessage → W → W
  unfolding deliver
  deliver_all [] message w = w
  deliver_all ((name, handlers) ∷ rest) message w =
      deliver_all rest message (deliver handlers message w)

  unfoldable pub publish : AgentMessage → MessageBus W → W → MessageBus W × W
  unfolding deliver_all
  publish message bus w = (
    record bus { history = bus.history ++ (message ∷ []) },
    elim message.message_type [
      | broadcast ↦ deliver_all bus.handlers message w
      | _ ↦ deliver (handlers_of message.receiver bus) message w
    ],
  )

  unfoldable pub send_request :
      String → String → TextDict Value → String → MessageBus W → W → MessageBus W × W
  unfolding create_request publish
  send_request sender receiver payload correlation_id bus w =
      publish (create_request sender receiver payload correlation_id) bus w

  unfoldable pub send_response :
      String → String → TextDict Value → String → Bool → MessageBus W → W → MessageBus W × W
  unfolding create_response publish
  send_response sender receiver payload correlation_id success bus w =
      publish (create_response sender receiver payload correlation_id success) bus w

  unfoldable pub send_broadcast : String → TextDict Value → MessageBus W → W → MessageBus W × W
  unfolding create_broadcast publish
  send_broadcast sender payload bus w = publish (create_broadcast sender payload) bus w

  unfoldable pub clear_history : MessageBus W → MessageBus W
  clear_history bus = record bus { history = [] }

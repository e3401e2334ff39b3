-- ===== src/Inference.antt =====
-- mac-central/src/inference: the conversations and the batches of the inference engine.
pub mod Conversation
pub mod Engine
pub mod ReasoningChain
pub mod ConfigGuide
pub mod RagRetriever

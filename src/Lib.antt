-- ===== src/Lib.antt =====
-- The session server and the ability system of Aura, an Unreal Engine game.
--
-- The session server (Source/SessionServer) is a Windows program of several threads. Worker threads
-- serve the completions of socket I/O (ServerNetwork/IOCPServer.h, ServerNetwork/ClientInfo.h): what a
-- client sends goes into the receive buffer of its user (User.h), connections and disconnections into
-- a queue of system packets. The packet thread (PacketManager.cpp) cuts packets from the buffers and
-- calls their handlers; a login request goes through a double buffer (DoubleBuffer.cpp) to the thread
-- of the database agent (DBAgent.cpp), whose answer comes back through a second one and is sent to
-- the client. UserManager.h knows which connection is logged in under which id. The game
-- (Source/Aura) keeps a character's abilities, experience and effects in the engine's gameplay
-- ability system: an ability applies an effect of damage, whose calculation takes off what the target
-- resists, and the target's attribute set takes the rest off its health, kills it and sends its reward.
-- A checkpoint saves the actors of the map and the player's progress to one slot, which the load
-- screen plays again. Source/Aura/Private is left out of the paths of the game below.
--
-- Which file models what:
--   Session.Packet         Source/SessionServer/Packet.h: PACKET_ID, PACKET_HEADER, PacketInfo.
--   Session.User           User.h: User, SetPacketData (`set_packet_data`), GetPacket (`get_packet`).
--   Session.UserManager    UserManager.h: AddUser, DeleteUserInfo, FindUserIndexByID.
--   Session.DoubleBuffer   DoubleBuffer.cpp; in `Race` the steps of two threads, with SpinLock.h.
--   Session.PacketManager  PacketManager.cpp: the state `Server` holds the users, the queues and what
--                          was sent; `serve_client` and `serve_system` are the halves of one round of
--                          ProcessPacket, `process_queue` one round of ProcessQueue.
--   Session.DbAgent        DBAgent.cpp: one round of ProcessQueue and its handlers.
--   Session.ClientInfo     ServerNetwork/ClientInfo.h: accepting, sending and closing.
--   Session.IocpServer     ServerNetwork/IOCPServer.h and SessionServer.h: AccepterThread,
--                          WokerThread, CloseSocket, and the callbacks into the packet manager.
--   Client                 Source/Aura/Private/Socket/AuraSocket.cpp and Game/AuraGameInstance.cpp: the
--                          game's login packet, and Run on an answer.
--   Ability.Context        Source/Aura/Private/AuraAbilityTypes.cpp: NetSerialize of an effect's
--                          context, as `save` and `load`.
--   Ability.Experience     AbilitySystem/Data/LevelUpInfo.cpp, Player/AuraPlayerState.cpp and
--                          HandleIncomingXP of AbilitySystem/AuraAttributeSet.cpp.
--   Ability.Spells         AbilitySystem/AuraAbilitySystemComponent.cpp: ServerEquipAbility,
--                          UpdateAbilityStatuses, ServerSpendSpellPoint, and ShouldEnableButtons of
--                          UI/WidgetController/SpellMenuWidgetController.cpp.
--   Menu                   UI/WidgetController/SpellMenuWidgetController.cpp: selecting, spending and
--                          equipping, with what the server tells the menu.
--   Ability.Passive        AbilitySystem/Passive/PassiveNiagaraComponent.cpp: the effect of a passive
--                          ability and the server's calls that it hears, and DebuffTagChanged of
--                          AbilitySystem/Debuff/DebuffNiagaraComponent.cpp.
--   Loot                   AbilitySystem/Data/LootTiers.cpp: GetLootItems over the engine's draws.
--   Ability.EffectActor    Actor/AuraEffectActor.cpp: OnOverlap and OnEndOverlap.
--   Combat.Numbers         The floats of the fight, an interface of operations and laws of IEEE
--                          arithmetic; `Natural` is an instance for the tests.
--   Combat.Library         AbilitySystem/AuraAbilitySystemLibrary.cpp: the getters and setters of a
--                          context behind a handle, the parameters of damage, ApplyDamageEffect.
--   Combat.Damage          AbilitySystem/ExecCalc/ExecCalc_Damage.cpp: DetermineDebuff and
--                          Execute_Implementation (`execute`).
--   Combat.Attributes      AbilitySystem/AuraAttributeSet.cpp: PreAttributeChange,
--                          PostGameplayEffectExecute, HandleIncomingDamage, Debuff,
--                          PostAttributeChange; Die of Character/AuraCharacterBase.cpp.
--   Combat.Targets         AuraAbilitySystemLibrary.cpp: GetLivePlayersWithinRadius,
--                          GetClosestTargets, IsNotFriend.
--   Game.Slots             Game/LoadScreenSaveGame.cpp and its header, and the slots of
--                          Game/AuraGameModeBase.cpp. `SaveSystem` is the engine's store of saved
--                          games, `Serializer` its serialisation of actors.
--   Game.World             AuraGameModeBase.cpp: SaveWorldState, LoadWorldState, with the LoadActor of
--                          Actor/AuraEnemySpawnVolume.cpp and of checkpoints.
--   Game.LoadScreen        UI/ViewModel/MVVM_LoadScreen.cpp, MVVM_LoadSlot.cpp, and SaveSlotData and
--                          TravelToMap of AuraGameModeBase.cpp.
--   Game.Progress          Character/AuraCharacter.cpp: SaveProgress, LoadProgress, and the abilities
--                          that AuraAbilitySystemComponent.cpp gives.
--   Game.Checkpoint        Checkpoint/Checkpoint.cpp, Checkpoint/MapEntrance.cpp, and PossessedBy,
--                          PlayerDied and ChoosePlayerStart.
--   Player.Input           Player/AuraPlayerController.cpp: CursorTrace, AutoRun and the inputs of
--                          abilities, with the left mouse button.
--   Base                   Numbers, lists, blocks of bytes, dictionaries and integers.
--
-- How it is modelled. A byte is a number below 256, a buffer a list of bytes, a pointer into a
-- buffer the buffer's owner and an offset. UINT32 arithmetic wraps around. A function that can read
-- or write outside a block or through a null pointer returns `none` there. An endless loop is
-- modelled by its body. FindLevelForXP runs on fuel, one more than the length of the table, which is
-- enough since the level rises in each round and stops before the end of the table.
--
-- What is not under these paths is a parameter: the results of Winsock and of MySQL's client library
-- are arguments, and the engine's serialisers are the record `Engine`, whose laws say that what was
-- saved is loaded again. So are the engine's store of saved games, what its traces and queries find,
-- the numbers that it draws, its floats, whose laws are stated, and which abilities it keeps once they
-- are given and activated.
--
-- Not modelled: sockets, threads and sleeps as such; overflow of int32 in the game; what the actors of
-- blueprints do when they are loaded; the effects that are assets, and the attributes that only they
-- change; ability classes, projectiles and other actors, animation, AI and widgets, which are calls of
-- the engine.
pub mod Ability
pub mod Base
pub mod Client
pub mod Combat
pub mod Game
pub mod Loot
pub mod Menu
pub mod Player
pub mod Session
